-- ===== src/Word/Masks.antt =====
-- A field of an instruction is a quotient and a remainder.
use native.Mathlib.Nat.{mul-div_cancel, one-le-pow}
use projet_s.Common.{ℕ, ◌-◌, ◌/◌, ◌%◌, ◌^◌, ◌≡◌, ap, arith, ◌∙◌}
use projet_s.Bits.{bit_and-scaled, bit_and-mask}
use projet_s.Word.{masked}

pub masked-eq-mod : (w k x : ℕ) → masked x (2 ^ w - 1) k ≡ x / 2 ^ k % 2 ^ w
masked-eq-mod w k x =
    ap (λ (t : ℕ). t / 2 ^ k) (bit_and-scaled k x (2 ^ w - 1))
    ∙ mul-div_cancel _ (one-le-pow k 2 (omega arith))
    ∙ bit_and-mask w (x / 2 ^ k)
