-- ===== src/Constants/Names.antt =====
-- arm_constants.c: the names that traces print. An index outside a table is `fault`, and NULL is `none`.
use Prim.Native.String.{String}
use projet_s.Common.{
  below-true, ℕ, zero, suc, ◌<◌, ◌≡◌, refl, arith, ltb, ◌==◌, ◌||◌, Bool, true, false,
  if◌then◌else◌, below, below-true, Option, none, some, List, [], ◌∷◌,
}
use projet_s.Constants.{usr, fiq, irq, svc, abt, und, sys}
use projet_s.Outcome.{Outcome, ok, fault, exited, unfinished}

abbrev nth : List (Option String) → ℕ → Outcome (Option String)
nth [] n = fault
nth (x ∷ xs) zero = ok x
nth (x ∷ xs) (suc n) = nth xs n

abbrev absent : ℕ → List (Option String) → List (Option String)
absent zero xs = xs
absent (suc n) xs = none ∷ absent n xs

abbrev arm_mode_names : List (Option String)
arm_mode_names = absent 16 (
    some "USR"
    ∷ some "FIQ"
    ∷ some "IRQ"
    ∷ some "SVC"
    ∷ absent 3 (some "ABT" ∷ absent 3 (some "UND" ∷ absent 3 (some "SYS" ∷ []))))

abbrev arm_register_names : List (Option String)
arm_register_names =
    some "R00"
    ∷ some "R01"
    ∷ some "R02"
    ∷ some "R03"
    ∷ some "R04"
    ∷ some "R05"
    ∷ some "R06"
    ∷ some "R07"
    ∷ some "R08"
    ∷ some "R09"
    ∷ some "R10"
    ∷ some "R11"
    ∷ some "R12"
    ∷ some "SP"
    ∷ some "LR"
    ∷ some "PC"
    ∷ some "CPSR"
    ∷ some "SPSR"
    ∷ []

abbrev arm_exception_names : List (Option String)
arm_exception_names =
    none
    ∷ some "reset"
    ∷ some "undefined instruction"
    ∷ some "software interrupt"
    ∷ some "prefetch abort"
    ∷ some "data abort"
    ∷ some "imprecise_abort"
    ∷ some "interrupt"
    ∷ some "fast interrupt"
    ∷ []

abbrev arm_opcode_names : List (Option String)
arm_opcode_names =
    some "AND"
    ∷ some "EOR"
    ∷ some "SUB"
    ∷ some "RSB"
    ∷ some "ADD"
    ∷ some "ADC"
    ∷ some "SBC"
    ∷ some "RSC"
    ∷ some "TST"
    ∷ some "TEQ"
    ∷ some "CMP"
    ∷ some "CMN"
    ∷ some "ORR"
    ∷ some "MOV"
    ∷ some "BIC"
    ∷ some "MVN"
    ∷ []

unfoldable pub arm_get_exception_name : ℕ → Outcome (Option String)
arm_get_exception_name exception =
    if ltb exception 9 then nth arm_exception_names exception else ok none

unfoldable pub arm_get_mode_name : ℕ → Outcome (Option String)
arm_get_mode_name mode = nth arm_mode_names mode

unfoldable pub arm_get_register_name : ℕ → Outcome (Option String)
arm_get_register_name reg = nth arm_register_names reg

unfoldable pub arm_get_opcode_name : ℕ → Outcome (Option String)
arm_get_opcode_name code = nth arm_opcode_names code

abbrev entries : List (Option String) → ℕ
entries [] = 0
entries (x ∷ xs) = suc (entries xs)

nth-inside :
    (xs : List (Option String)) (n : ℕ)
    → n < entries xs
    → (name : Option String) × (nth xs n ≡ ok name)
nth-inside [] n h = ground arith
nth-inside (x ∷ xs) zero h = (x, refl)
nth-inside (x ∷ xs) (suc n) h = nth-inside xs n (omega arith)

-- The places of the tables.
pub arm_get_mode_name-inside :
    (mode : ℕ) → mode < 32 → (name : Option String) × (arm_get_mode_name mode ≡ ok name)
unfolding arm_get_mode_name
arm_get_mode_name-inside mode h = nth-inside arm_mode_names mode h

pub arm_get_register_name-inside :
    (reg : ℕ) → reg < 18 → (name : Option String) × (arm_get_register_name reg ≡ ok name)
unfolding arm_get_register_name
arm_get_register_name-inside reg h = nth-inside arm_register_names reg h

-- Whether a lookup finds a name.
abbrev pub has_name : Outcome (Option String) → Bool
has_name (ok (some s)) = true
has_name (ok none) = false
has_name fault = false
has_name (exited n) = false
has_name unfinished = false

abbrev is_mode : ℕ → Bool
is_mode m = m == usr || m == fiq || m == irq || m == svc || m == abt || m == und || m == sys

abbrev agree : Bool → Bool → Bool
agree a b = if a then b else (if b then false else true)

modes_agree : below (λ m. agree (has_name (arm_get_mode_name m)) (is_mode m)) 32 ≡ true
unfolding arm_get_mode_name
modes_agree = refl

-- Of the numbers that fit the mode bits, the seven modes have names and no other does.
pub has_name-arm_get_mode_name : (m : ℕ) → m < 32 → has_name (arm_get_mode_name m) ≡ is_mode m
has_name-arm_get_mode_name m h =
    agreed (has_name (arm_get_mode_name m)) (is_mode m)
      (below-true (λ k. agree (has_name (arm_get_mode_name k)) (is_mode k)) 32 m modes_agree h)
  where
    agreed : (a b : Bool) → agree a b ≡ true → a ≡ b
    agreed a b h = ground arith
