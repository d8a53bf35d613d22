-- ===== src/Gdb/Hex.antt =====
-- Bytes in hexadecimal, as sprintf("%02x") prints and sscanf("%02x") reads them in gdb_protocol.c.
-- Characters are their ASCII codes. The blanks, the sign and the 0x that sscanf also takes are left
-- out: the protocol has none of them.
use projet_s.Common.{
  ◌∙◌, ℕ, zero, suc, ◌+◌, ◌-◌, ◌*◌, ◌/◌, ◌%◌, ◌^◌, ◌<◌, ◌≡◌, refl, arith, ltb, leb, ◌&&◌,
  if◌then◌else◌, Option, none, some, List, [], ◌∷◌, ◌++◌,
}

-- The character of a digit below 16, in lower case.
unfoldable pub hex_digit : ℕ → ℕ
hex_digit d = if ltb d 10 then 0x30 + d else 0x57 + d

unfoldable pub print_byte : ℕ → List ℕ
print_byte b = hex_digit (b / 16 % 16) ∷ hex_digit (b % 16) ∷ []

unfoldable pub digit_value : ℕ → Option ℕ
digit_value c =
    if leb 0x30 c && leb c 0x39
    then some (c - 0x30)
    else if leb 0x61 c && leb c 0x66
    then some (c - 0x57)
    else if leb 0x41 c && leb c 0x46
    then some (c - 0x37)
    else none

-- The number in the digits at the start, of which at most `width` are read; `value` is what has
-- been read so far.
unfoldable pub scan_digits : ℕ → List ℕ → ℕ → ℕ
unfolding digit_value
scan_digits zero cs value = value
scan_digits (suc width) [] value = value
scan_digits (suc width) (c ∷ cs) value = elim (digit_value c) [
  | some d ↦ scan_digits width cs (value * 16 + d)
  | none ↦ value
]

-- sscanf(cs, "%02x", &value): without a digit `value` is left alone.
unfoldable pub scan_byte : List ℕ → ℕ → ℕ
unfolding scan_digits
scan_byte [] value = value
scan_byte (c ∷ cs) value = elim (digit_value c) [ some d ↦ scan_digits 1 cs d | none ↦ value ]

pub digit_value-hex_digit : (d : ℕ) → d < 16 → digit_value (hex_digit d) ≡ some d
unfolding digit_value hex_digit
digit_value-hex_digit d h = ground arith

scan_two :
    (a b x y old : ℕ) (cs : List ℕ)
    → digit_value a ≡ some x
    → digit_value b ≡ some y
    → scan_byte (a ∷ b ∷ cs) old ≡ x * 16 + y
unfolding scan_byte scan_digits
scan_two a b x y old cs p q = rw (p, scan_byte, q, scan_digits) refl

pub scan_byte-print_byte :
    (b old : ℕ) (cs : List ℕ) → b < 2 ^ 8 → scan_byte (print_byte b ++ cs) old ≡ b
unfolding print_byte
scan_byte-print_byte b old cs h =
    scan_two (hex_digit (b / 16 % 16)) (hex_digit (b % 16)) (b / 16 % 16) (b % 16) old cs
      (digit_value-hex_digit (b / 16 % 16) (omega arith))
      (digit_value-hex_digit (b % 16) (omega arith))
    ∙ omega arith
