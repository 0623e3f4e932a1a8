-- ===== src/Serial/Buffer.antt =====
-- What the UART holds back: part of a line, and never much of it.
use nesbox.Base.{
  ℕ, ◌-◌, ◌<◌, ◌≡◌, ◌≢◌, arith, false, ◌||◌, List, [], ◌∷◌, ◌++◌, All, All-append, length, leb,
  ◌==◌, if-holds,
}
use nesbox.Serial.{Uart, dlab, flush, transmit, write_register, write, read, com1_base}
use nesbox.Serial.Output.{Access, write_at, read_at, perform, perform_all}

-- Fewer than 256 bytes, none of them a line feed.
pub record IsPartOfLine (u : Uart) : Type 0 where
  pub few : length u.out < 256
  pub unfinished : All (λ b. b ≢ 10) u.out

flushed : (u : Uart) → IsPartOfLine (flush u).0
unfolding flush
flushed u = record { few = omega arith; unfinished = tt }

Held : Uart × List ℕ → Type 0
Held r = IsPartOfLine r.0

transmit-IsPartOfLine : (u : Uart) (byte : ℕ) → IsPartOfLine u → IsPartOfLine (transmit u byte).0
unfolding transmit Held
transmit-IsPartOfLine u byte h =
    let u1 = record u { out = u.out ++ byte ∷ [] } in
    if-holds Held ((byte == 10) || leb 256 (length u1.out)) (λ e. flushed u1)
      (λ e. record {
        few = ground (arith, e);
        unfinished = All-append (λ b. b ≢ 10) u.out (byte ∷ []) h.unfinished (not_feed e, tt);
      })
  where
    not_feed : ((byte == 10) || leb 256 (length (u.out ++ byte ∷ []))) ≡ false → byte ≢ 10
    not_feed e f = ground (arith, e, f)

register-Held : (u : Uart) (reg byte : ℕ) → IsPartOfLine u → Held (write_register u reg byte)
unfolding write_register Held
register-Held u reg byte h =
    if-holds Held (reg == 0)
      (λ z.
        if-holds Held (dlab u) (λ d. record { few = h.few; unfinished = h.unfinished })
          (λ d. transmit-IsPartOfLine u byte h))
      (λ z.
        if-holds Held (reg == 1)
          (λ e.
            if-holds Held (dlab u) (λ d. record { few = h.few; unfinished = h.unfinished })
              (λ d. record { few = h.few; unfinished = h.unfinished }))
          (λ e.
            if-holds Held (reg == 3) (λ f. record { few = h.few; unfinished = h.unfinished })
              (λ f.
                if-holds Held (reg == 4) (λ k. record { few = h.few; unfinished = h.unfinished })
                  (λ k.
                    if-holds Held (reg == 7)
                      (λ r. record { few = h.few; unfinished = h.unfinished }) (λ r. h)))))

perform-Held : (s : Uart × List ℕ) (a : Access) → Held s → Held (perform s a)
unfolding perform write read Held
perform-Held (u, sent) (write_at port []) h = h
perform-Held (u, sent) (write_at port (byte ∷ bytes)) h = register-Held u (port - com1_base) byte h
perform-Held (u, sent) (read_at port n) h =
    if-holds Held (port - com1_base == 5) (λ e. flushed u) (λ e. h)

-- Over any sequence of accesses the device holds back less than 256 bytes, and no whole line.
pub perform_all-IsPartOfLine :
    (s : Uart × List ℕ) (accesses : List Access)
    → IsPartOfLine s.0
    → IsPartOfLine (perform_all s accesses).0
unfolding perform_all Held
perform_all-IsPartOfLine s [] h = h
perform_all-IsPartOfLine s (a ∷ rest) h =
    perform_all-IsPartOfLine (perform s a) rest (perform-Held s a h)
