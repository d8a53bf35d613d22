-- ===== src/Gdb/Lexer.antt =====
-- The patterns of scanner.l, as flex reads them: at each place the longest match, and a character
-- that no pattern takes is passed over.
pub mod Frames
pub mod Served
use projet_s.Common.{
  ℕ, zero, suc, ◌+◌, ◌<◌, ◌≤◌, ◌≡◌, refl, arith, length, ◌==◌, ◌&&◌, Bool, true, false, both_ways,
  if◌then◌else◌, Option, none, some, List, [], ◌∷◌, ◌++◌,
}
use projet_s.Gdb.Hex.{digit_value}
use projet_s.Gdb.Scanner.{Token, plus, minus, packet, other, end}

-- {HEX}
unfoldable pub is_hex : ℕ → Bool
unfolding digit_value
is_hex c = elim (digit_value c) [ some d ↦ true | none ↦ false ]

-- #{HEX}{HEX}, with what follows it.
unfoldable pub closing : List ℕ → Option (List ℕ × List ℕ)
unfolding is_hex
closing (h ∷ l ∷ rest) = if is_hex h && is_hex l then some (0x23 ∷ h ∷ l ∷ [], rest) else none
closing text = none

abbrev pub after : ℕ → Option (List ℕ × List ℕ) → Option (List ℕ × List ℕ)
after c none = none
after c (some (text, rest)) = some (c ∷ text, rest)

-- [^$#]*#{HEX}{HEX}
unfoldable pub packet_end : List ℕ → Option (List ℕ × List ℕ)
unfolding closing
packet_end [] = none
packet_end (c ∷ cs) =
    if c == 0x23 then closing cs else if c == 0x24 then none else after c (packet_end cs)

-- The choice at a $, for the packet that starts there, if one does.
abbrev pub dollar : ℕ → List ℕ → Option (List ℕ × List ℕ) → Option Token × List ℕ
dollar c cs none = (some (other c), cs)
dollar c cs (some (text, rest)) = (some (packet (c ∷ text)), rest)

-- The token at a character and what follows it. A new line is matched by no pattern.
unfoldable pub match : ℕ → List ℕ → Option Token × List ℕ
unfolding packet_end
match c cs =
    if c == 0x2B
    then (some plus, cs)
    else if c == 0x2D
    then (some minus, cs)
    else if c == 0x24
    then dollar c cs (packet_end cs)
    else if c == 0x0A
    then (none, cs)
    else (some (other c), cs)

abbrev pub emit : Option Token → List Token → List Token
emit none tokens = tokens
emit (some token) tokens = token ∷ tokens

-- The tokens of a text, for at most n matches.
unfoldable pub tokens : ℕ → List ℕ → List Token
unfolding match
tokens zero text = []
tokens (suc n) [] = end ∷ []
tokens (suc n) (c ∷ cs) = let (token, rest) = match c cs in emit token (tokens n rest)

-- Each match takes a character, so as many matches as characters, and the end, are enough.
unfoldable pub lex : List ℕ → List Token
unfolding tokens
lex text = tokens (length text + 1) text
