-- ===== src/Serial/Tests.antt =====
-- "ok" and a line feed, with the baud rate set between.
use nesbox.Base.{◌≡◌, refl, true, List, [], ◌∷◌}
use nesbox.Serial.{
  new_uart, handles, write, read, register, spread, write_register, transmit, flush,
}
use nesbox.Serial.Output.{
  Access, write_at, perform, perform_all, line_of, carry, carry_all, put_byte,
  perform_all-carry_all,
}

abbrev accesses : List Access
accesses =
    write_at 0x3f8 (111 ∷ [])
    ∷ write_at 0x3fb (0x83 ∷ [])
    ∷ write_at 0x3f8 (1 ∷ [])
    ∷ write_at 0x3f9 (0 ∷ [])
    ∷ write_at 0x3fb (3 ∷ [])
    ∷ write_at 0x3f8 (107 ∷ [])
    ∷ write_at 0x3f8 (10 ∷ [])
    ∷ write_at 0x3f8 (33 ∷ [])
    ∷ []

perform_all-carry_all_example :
    line_of (perform_all (new_uart, []) accesses) ≡ carry_all (line_of (new_uart, [])) accesses
perform_all-carry_all_example = perform_all-carry_all (new_uart, []) accesses

whole_line : (perform_all (new_uart, []) accesses).1 ≡ 111 ∷ 107 ∷ 10 ∷ []
unfolding perform_all perform write write_register transmit flush new_uart
whole_line = refl

on_the_line :
    carry_all (record { control = 3; carried = [] }) accesses
    ≡ record { control = 3; carried = 111 ∷ 107 ∷ 10 ∷ 33 ∷ [] }
unfolding carry_all carry put_byte
on_the_line = refl

ports : handles 0x3fd ≡ true
unfolding handles
ports = refl

status : (read new_uart 0x3fd 2).1 ≡ 0x60 ∷ 0 ∷ []
unfolding read register spread
status = refl
