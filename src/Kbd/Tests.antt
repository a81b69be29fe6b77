-- ===== src/Kbd/Tests.antt =====
-- kernel/drivers/kbd.c: some keys.
use gnuwindows.Base.{◌≡◌, refl, true, false, List, [], ◌∷◌, arith}
use gnuwindows.Kbd.Keys.{Kbd, push, key_char, key_map, map_shift, on_byte, on_press}
use gnuwindows.Kbd.Queue.{
  InRing, Call, puts, gets, waiting, returns, queue_returns, returns-queue_returns,
}

abbrev idle : Kbd
idle = record { buf = λ i. 0; head = 63; tail = 63; shift = false; caps = false; ctrl = false }

idle-InRing : InRing idle
idle-InRing = record { head-lt = omega arith; tail-lt = omega arith }

abbrev some_calls : List Call
some_calls = puts 97 ∷ puts 98 ∷ gets ∷ gets ∷ gets ∷ []

returns_example : returns some_calls idle ≡ queue_returns some_calls (waiting idle)
returns_example = returns-queue_returns some_calls idle idle-InRing

-- The key 2 with Caps Lock, and with Shift.
caps_digit : key_char 3 false true ≡ b'@'
unfolding key_char key_map map_shift
caps_digit = refl

shift_digit : key_char 3 true true ≡ b'2'
unfolding key_char key_map map_shift
shift_digit = refl

-- Shift, the key A, and Shift again.
typed : (on_byte 0xAA (on_byte 0x1E (on_byte 0x2A idle))).buf 63 ≡ b'A'
unfolding on_byte on_press key_char key_map map_shift push
typed = refl
