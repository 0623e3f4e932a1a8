-- ===== src/Serial/Output.antt =====
-- The serial line's output as a stream: what a guest transmits comes out in order, whole lines at a
-- time.
use nesbox.Base.{
  ℕ, ◌-◌, ◌≡◌, ◌∙◌, refl, sym, ap, arith, inl, inr, false, ◌||◌, List, [], ◌∷◌, ◌++◌, length, leb,
  ◌==◌, if◌then◌else◌, has_bit, if-holds, Bool-cases,
}
use mathlib.Core.List.{append_assoc, append-nil}
use nesbox.Serial.{Uart, dlab, flush, transmit, write_register, write, read, com1_base}

-- An access of the guest to one of the ports.
pub data Access : Type 0 where
  write_at : ℕ → List ℕ → Access
  read_at : ℕ → ℕ → Access

-- The device and everything that went out.
unfoldable pub perform : Uart × List ℕ → Access → Uart × List ℕ
perform (u, sent) (write_at port bytes) = let r = write u port bytes in (r.0, sent ++ r.1)
perform (u, sent) (read_at port n) = let r = (read u port n).0 in (r.0, sent ++ r.1)

unfoldable pub perform_all : Uart × List ℕ → List Access → Uart × List ℕ
perform_all s [] = s
perform_all s (a ∷ rest) = perform_all (perform s a) rest

-- The specification: a line control register, and a line on which bytes are transmitted at once.
pub record Line : Type 0 where
  pub control : ℕ
  pub carried : List ℕ

unfoldable pub put_byte : Line → ℕ → ℕ → Line
put_byte l reg byte =
    if (reg == 0)
    then if has_bit l.control 7 then l else record l { carried = l.carried ++ byte ∷ [] }
    else if reg == 3
    then record l { control = byte }
    else l

unfoldable pub carry : Line → Access → Line
carry l (read_at port n) = l
carry l (write_at port []) = l
carry l (write_at port (byte ∷ bytes)) = put_byte l (port - com1_base) byte

unfoldable pub carry_all : Line → List Access → Line
carry_all l [] = l
carry_all l (a ∷ rest) = carry_all (carry l a) rest

-- What the specification sees of the device: what it has sent and what it still holds.
pub line_of : Uart × List ℕ → Line
line_of (u, sent) = record { control = u.lcr; carried = sent ++ u.out }

-- The line after a step, with what the step sent put after what went before.
after : List ℕ → Uart × List ℕ → Line
after sent r = line_of (r.0, sent ++ r.1)

transmit-line :
    (u : Uart) (sent : List ℕ) (byte : ℕ)
    → after sent (transmit u byte)
      ≡ record { control = u.lcr; carried = (sent ++ u.out) ++ byte ∷ [] }
unfolding transmit flush line_of after
transmit-line u sent byte =
    let line : List ℕ → Line = λ x. record { control = u.lcr; carried = x } in
    let joined = sym (append_assoc sent u.out (byte ∷ [])) in
    if-holds (λ r. after sent r ≡ line ((sent ++ u.out) ++ byte ∷ []))
      ((byte == 10) || leb 256 (length (u.out ++ byte ∷ [])))
      (λ e. ap line (append-nil (sent ++ (u.out ++ byte ∷ [])) ∙ joined))
      (λ e. ap line (ap (λ x. x ++ (u.out ++ byte ∷ [])) (append-nil sent) ∙ joined))

-- A step that sends nothing and leaves the buffer and the line control alone.
quiet :
    (u v : Uart) (sent : List ℕ)
    → v.lcr ≡ u.lcr
    → v.out ≡ u.out
    → after sent (v, []) ≡ line_of (u, sent)
unfolding line_of after
quiet u v sent c o =
    rw (c, o) (ap (λ x. record { control = u.lcr; carried = x ++ u.out }) (append-nil sent))

new_control :
    (u : Uart) (sent : List ℕ) (byte : ℕ)
    → after sent (record u { lcr = byte }, []) ≡ record { control = byte; carried = sent ++ u.out }
unfolding line_of after
new_control u sent byte =
    ap (λ x. record { control = byte; carried = x ++ u.out }) (append-nil sent)

register-line :
    (u : Uart) (sent : List ℕ) (reg byte : ℕ)
    → after sent (write_register u reg byte) ≡ put_byte (line_of (u, sent)) reg byte
unfolding write_register put_byte line_of
register-line u sent reg byte = elim (Bool-cases (reg == 0)) [
  | inl z ↦ elim (Bool-cases (dlab u)) [
    | inl d ↦ rw (z, d) (quiet u _ sent refl refl)
    | inr d ↦ rw (z, d) (transmit-line u sent byte)
  ]
  | inr z ↦ elim (Bool-cases (reg == 3)) [
    | inl t ↦
        let one : (reg == 1) ≡ false = ground (arith, t) in rw (z, one, t) (new_control u sent byte)
    | inr t ↦
        let P : Uart × List ℕ → Type 0 = λ r. after sent r ≡ line_of (u, sent) in
        rw (z, t)
          (if-holds P (reg == 1)
            (λ e.
              if-holds P (dlab u) (λ f. quiet u _ sent refl refl) (λ f. quiet u _ sent refl refl))
            (λ e.
              if-holds P (reg == 4) (λ f. quiet u _ sent refl refl)
                (λ f.
                  if-holds P (reg == 7) (λ k. quiet u _ sent refl refl)
                    (λ k. quiet u _ sent refl refl))))
  ]
]

flush-line : (u : Uart) (sent : List ℕ) → after sent (flush u) ≡ line_of (u, sent)
unfolding flush line_of after
flush-line u sent = ap (λ x. record { control = u.lcr; carried = x }) (append-nil (sent ++ u.out))

perform-carry : (s : Uart × List ℕ) (a : Access) → line_of (perform s a) ≡ carry (line_of s) a
unfolding perform carry write read after line_of
perform-carry (u, sent) (write_at port []) = quiet u u sent refl refl
perform-carry (u, sent) (write_at port (byte ∷ bytes)) =
    register-line u sent (port - com1_base) byte
perform-carry (u, sent) (read_at port n) =
    if-holds (λ r. after sent r ≡ line_of (u, sent)) (port - com1_base == 5)
      (λ e. flush-line u sent) (λ e. quiet u u sent refl refl)

-- Over any sequence of accesses the UART refines the line on which bytes are transmitted at once:
-- what it has sent, followed by what it still holds, is every byte written to the transmitter while
-- the divisor latch was off, in order, and the line control register is the one last written.
pub perform_all-carry_all :
    (s : Uart × List ℕ) (accesses : List Access)
    → line_of (perform_all s accesses) ≡ carry_all (line_of s) accesses
unfolding perform_all carry_all
perform_all-carry_all s [] = refl
perform_all-carry_all s (a ∷ rest) =
    perform_all-carry_all (perform s a) rest ∙ ap (λ l. carry_all l rest) (perform-carry s a)
