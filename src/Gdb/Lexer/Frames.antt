-- ===== src/Gdb/Lexer/Frames.antt =====
-- What the scanner finds in a stream of packets.
use projet_s.Common.{
  ℕ, zero, suc, ◌+◌, ◌/◌, ◌%◌, ◌<◌, ◌≤◌, ◌≡◌, ◌≢◌, refl, ap, ◌∙◌, arith, length, length-++, ◌==◌,
  ◌&&◌, true, false, if_both, Option, none, some, List, [], ◌∷◌, ◌++◌,
}
use mathlib.Core.List.{append_assoc}
use projet_s.Gdb.Hex.{hex_digit, print_byte, digit_value-hex_digit}
use projet_s.Gdb.State.{frame, add_all}
use projet_s.Gdb.Scanner.{Token, plus, packet, end}
use projet_s.Gdb.Lexer.{dollar, is_hex, closing, after, packet_end, match, emit, tokens, lex}

-- What follows a match is no longer than n.
abbrev Within : ℕ → Option (List ℕ × List ℕ) → Type 0
Within n none = Unit
Within n (some (text, rest)) = length rest ≤ n

Within-closing : (cs : List ℕ) → Within (suc (length cs)) (closing cs)
unfolding closing
Within-closing [] = tt
Within-closing (h ∷ []) = tt
Within-closing (h ∷ l ∷ cs) =
    if_both (Within (suc (suc (suc (length cs))))) (is_hex h && is_hex l) (omega arith) tt

Within-after :
    (n c : ℕ) (found : Option (List ℕ × List ℕ)) → Within n found → Within (suc n) (after c found)
Within-after n c none h = tt
Within-after n c (some (text, rest)) h = omega arith

Within-packet_end : (cs : List ℕ) → Within (length cs) (packet_end cs)
unfolding packet_end
Within-packet_end [] = tt
Within-packet_end (c ∷ cs) = if_both (Within (suc (length cs))) (c == 0x23) (Within-closing cs) (
    if_both (Within (suc (length cs))) (c == 0x24) tt
      (Within-after (length cs) c (packet_end cs) (Within-packet_end cs)))

dollar-le :
    (n c : ℕ) (cs : List ℕ) (found : Option (List ℕ × List ℕ))
    → length cs ≤ n
    → Within n found
    → length (dollar c cs found).1 ≤ n
dollar-le n c cs none h k = h
dollar-le n c cs (some (text, rest)) h k = k

match-le : (c : ℕ) (cs : List ℕ) → length (match c cs).1 ≤ length cs
unfolding match
match-le c cs = if_both Left (c == 0x2B) (omega arith) (
    if_both Left (c == 0x2D) (omega arith) (
      if_both Left (c == 0x24)
        (dollar-le (length cs) c cs (packet_end cs) (omega arith) (Within-packet_end cs))
        (if_both Left (c == 0x0A) (omega arith) (omega arith))))
  where
    Left : Option Token × List ℕ → Type 0
    Left (token, rest) = length rest ≤ length cs

-- More rounds than enough find the same tokens.
tokens_enough :
    (n m : ℕ) (text : List ℕ) → length text < n → length text < m → tokens n text ≡ tokens m text
unfolding tokens
tokens_enough zero m text h k = ground arith
tokens_enough (suc n) zero text h k = ground arith
tokens_enough (suc n) (suc m) [] h k = refl
tokens_enough (suc n) (suc m) (c ∷ cs) h k =
    ap (emit (match c cs).0) (
      tokens_enough n m (match c cs).1 (omega (arith, match-le c cs))
        (omega (arith, match-le c cs)))

-- Texts without the characters that mark a packet.
abbrev pub IsPlain : List ℕ → Type 0
IsPlain [] = Unit
IsPlain (c ∷ cs) = (c ≢ 0x23) × (c ≢ 0x24) × IsPlain cs

is_hex-hex_digit : (d : ℕ) → d < 16 → is_hex (hex_digit d) ≡ true
unfolding is_hex
is_hex-hex_digit d h = rw (is_hex, digit_value-hex_digit d h) refl

packet_end-frame :
    (text rest : List ℕ) (b : ℕ)
    → IsPlain text
    → packet_end (text ++ (0x23 ∷ (print_byte b ++ rest)))
      ≡ some (text ++ (0x23 ∷ print_byte b), rest)
unfolding packet_end print_byte
packet_end-frame [] rest b plain_text =
    rw (is_hex-hex_digit (b / 16 % 16) (omega arith), is_hex-hex_digit (b % 16) (omega arith)) refl
packet_end-frame (c ∷ cs) rest b (not_hash, not_dollar, plain_text) =
    rw (hash, dollar, packet_end-frame cs rest b plain_text) refl
  where
    hash : (c == 0x23) ≡ false
    hash = ground arith

    dollar : (c == 0x24) ≡ false
    dollar = ground arith

-- A packet is one token.
match-frame :
    (text rest : List ℕ)
    → IsPlain text
    → match 0x24 (text ++ (0x23 ∷ (print_byte (add_all text 0) ++ rest)))
      ≡ (some (packet (frame text)), rest)
unfolding match frame
match-frame text rest plain_text = rw (packet_end-frame text rest (add_all text 0) plain_text) refl

-- The packets of some texts, one after the other, each acknowledged as the protocol asks.
abbrev pub stream : List (List ℕ) → List ℕ
stream [] = []
stream (text ∷ texts) = frame text ++ (0x2B ∷ stream texts)

abbrev pub ArePlain : List (List ℕ) → Type 0
ArePlain [] = Unit
ArePlain (text ∷ texts) = IsPlain text × ArePlain texts

abbrev pub packets : List (List ℕ) → List Token
packets [] = end ∷ []
packets (text ∷ texts) = packet (frame text) ∷ plus ∷ packets texts

frame-++ :
    (text rest : List ℕ)
    → frame text ++ rest ≡ 0x24 ∷ (text ++ (0x23 ∷ (print_byte (add_all text 0) ++ rest)))
unfolding frame
frame-++ text rest = ap (λ t. 0x24 ∷ t) (append_assoc text _ rest)

length-stream :
    (text : List ℕ) (texts : List (List ℕ))
    → length (stream texts) + 2 ≤ length (stream (text ∷ texts))
unfolding frame
length-stream text texts = omega (arith, length-++ (frame text) (0x2B ∷ stream texts))

tokens-stream :
    (texts : List (List ℕ)) (n : ℕ)
    → ArePlain texts
    → length (stream texts) < n
    → tokens n (stream texts) ≡ packets texts
unfolding tokens
tokens-stream texts zero plain_texts h = ground arith
tokens-stream [] (suc n) plain_texts h = refl
tokens-stream (text ∷ texts) (suc zero) plain_texts h =
    absurd (omega (arith, length-stream text texts, h))
tokens-stream (text ∷ texts) (suc (suc n)) (plain_text, plain_texts) h =
    ap (tokens (suc (suc n))) (frame-++ text (0x2B ∷ stream texts))
    ∙ rw (match-frame text (0x2B ∷ stream texts) plain_text) (
        ap (λ t. packet (frame text) ∷ plus ∷ t)
          (tokens-stream texts n plain_texts (omega (arith, length-stream text texts, h))))

-- In a stream of packets whose texts hold neither # nor $, each followed by an acknowledgement, the
-- scanner finds the packets and the acknowledgements in their order, and then the end.
pub lex-stream : (texts : List (List ℕ)) → ArePlain texts → lex (stream texts) ≡ packets texts
unfolding lex
lex-stream texts plain_texts =
    tokens-stream texts (length (stream texts) + 1) plain_texts (omega arith)
