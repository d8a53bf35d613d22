-- ===== src/Text.antt =====
-- What the C library does with texts: `strcmp`, `strncmp` for a prefix, and `atoi`. A text is the
-- list of its characters, without the 0 at its end.
use Prim.Native.Char.{code}
use Prim.Native.Nat.{compare, Ordering}
use Prim.Native.String.{String}
use projet_s.Common.{
  ◌%◌, ℕ, zero, suc, ◌+◌, ◌-◌, ◌*◌, ◌^◌, ◌≤◌, ◌≡◌, ◌≢◌, refl, arith, leb, ◌==◌, ◌&&◌, ◌||◌, Bool,
  true, false, if◌then◌else◌, List, [], ◌∷◌,
}
use projet_s.Outcome.{Outcome, ok, fault}
use projet_s.Word.Signed.{ℤ, pos, negsuc, fits32}

-- The characters of a constant.
abbrev pub codes : String → List ℕ
codes String.[] = []
codes (String.◌∷◌ c s) = code c ∷ codes s

-- The sign of the result of `strcmp`.
abbrev pub strcmp : List ℕ → List ℕ → Ordering
strcmp [] [] = Ordering.eq
strcmp [] (d ∷ ds) = Ordering.lt
strcmp (c ∷ cs) [] = Ordering.gt
strcmp (c ∷ cs) (d ∷ ds) = elim (compare c d) [
  | Ordering.lt ↦ Ordering.lt
  | Ordering.eq ↦ strcmp cs ds
  | Ordering.gt ↦ Ordering.gt
]

abbrev pub same_text : List ℕ → List ℕ → Bool
same_text a b = elim (strcmp a b) [ Ordering.eq ↦ true | _ ↦ false ]

-- strncmp(text, prefix, strlen(prefix)) == 0
abbrev pub starts_with : List ℕ → List ℕ → Bool
starts_with [] text = true
starts_with (c ∷ cs) [] = false
starts_with (c ∷ cs) (d ∷ ds) = (c == d) && starts_with cs ds

pub strcmp_refl : (a : List ℕ) → strcmp a a ≡ Ordering.eq
strcmp_refl [] = refl
strcmp_refl (c ∷ cs) = ground (arith, strcmp_refl cs)

pub strcmp-eq : (a b : List ℕ) → strcmp a b ≡ Ordering.eq → a ≡ b
strcmp-eq [] [] h = refl
strcmp-eq [] (d ∷ ds) h = cc
strcmp-eq (c ∷ cs) [] h = cc
strcmp-eq (c ∷ cs) (d ∷ ds) h = grind (arith, strcmp-eq cs ds)

-- What is no later than a text is before one that the text is before.
pub strcmp-le_lt :
    (a b c : List ℕ)
    → strcmp a b ≢ Ordering.gt
    → strcmp b c ≡ Ordering.lt
    → strcmp a c ≡ Ordering.lt
strcmp-le_lt a [] [] h k = cc
strcmp-le_lt a (y ∷ ys) [] h k = cc
strcmp-le_lt [] [] (z ∷ zs) h k = refl
strcmp-le_lt (x ∷ xs) [] (z ∷ zs) h k = ground (arith, h)
strcmp-le_lt [] (y ∷ ys) (z ∷ zs) h k = refl
strcmp-le_lt (x ∷ xs) (y ∷ ys) (z ∷ zs) h k = grind (arith, strcmp-le_lt xs ys zs)

-- What is after a text is after what is no later than that.
pub strcmp-gt_le :
    (a b c : List ℕ)
    → strcmp a b ≢ Ordering.gt
    → strcmp b c ≢ Ordering.gt
    → strcmp a c ≢ Ordering.gt
strcmp-gt_le [] b [] h k = λ e. cc
strcmp-gt_le [] b (z ∷ zs) h k = λ e. cc
strcmp-gt_le (x ∷ xs) [] c h k = ground (arith, h)
strcmp-gt_le (x ∷ xs) (y ∷ ys) [] h k = ground (arith, k)
strcmp-gt_le (x ∷ xs) (y ∷ ys) (z ∷ zs) h k = grind (arith, strcmp-gt_le xs ys zs)

-- The other way round, the sign is the opposite.
abbrev opposite : Ordering → Ordering
opposite Ordering.lt = Ordering.gt
opposite Ordering.eq = Ordering.eq
opposite Ordering.gt = Ordering.lt

pub strcmp-opposite : (a b : List ℕ) → strcmp b a ≡ opposite (strcmp a b)
strcmp-opposite [] [] = refl
strcmp-opposite [] (y ∷ ys) = refl
strcmp-opposite (x ∷ xs) [] = refl
strcmp-opposite (x ∷ xs) (y ∷ ys) = ground (arith, strcmp-opposite xs ys)

pub same_text-eq : (a b : List ℕ) → same_text a b ≡ true → a ≡ b
same_text-eq a b h = strcmp-eq a b (ground arith)

abbrev is_space : ℕ → Bool
is_space c = c == 0x20 || (leb 9 c && leb c 13)

abbrev is_digit : ℕ → Bool
is_digit c = leb 0x30 c && leb c 0x39

unfoldable pub decimal : List ℕ → ℕ → ℕ
decimal [] value = value
decimal (c ∷ cs) value =
    let rest = decimal cs (value * 10 + (c - 0x30)) in if is_digit c then rest else value

abbrev negate : ℕ → ℤ
negate zero = pos zero
negate (suc n) = negsuc n

unfoldable pub signed_decimal : List ℕ → ℤ
unfolding decimal
signed_decimal [] = pos 0
signed_decimal (c ∷ cs) =
    if c == 0x2D
    then negate (decimal cs 0)
    else if c == 0x2B
    then pos (decimal cs 0)
    else pos (decimal (c ∷ cs) 0)

unfoldable pub skip_spaces : List ℕ → List ℕ
skip_spaces [] = []
skip_spaces (c ∷ cs) = let rest = skip_spaces cs in if is_space c then rest else c ∷ cs

-- Blanks, a sign and digits; C gives no meaning to a number that an `int` cannot hold.
unfoldable pub atoi : List ℕ → Outcome ℤ
unfolding skip_spaces signed_decimal
atoi text =
    let value = signed_decimal (skip_spaces text) in if fits32 value then ok value else fault

-- An `int` as an `unsigned int`.
abbrev pub pattern32 : ℤ → ℕ
pattern32 (pos n) = n % 2 ^ 32
pattern32 (negsuc n) = 2 ^ 32 - 1 - n

-- A text that starts with one of the letters a to f has no number.
pub atoi_letter : (c : ℕ) (cs : List ℕ) → 0x61 ≤ c → c ≤ 0x66 → atoi (c ∷ cs) ≡ ok (pos 0)
unfolding atoi skip_spaces signed_decimal decimal
atoi_letter c cs h k = ground arith
