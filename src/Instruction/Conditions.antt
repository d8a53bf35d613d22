-- ===== src/Instruction/Conditions.antt =====
-- How the conditions of instructions are related.
use projet_s.Common.{ℕ, zero, suc, ◌+◌, ◌*◌, ◌<◌, ◌≡◌, refl, arith, not, Bool, true}
use projet_s.Instruction.{condition_passed}

-- Up to LE, a condition with an odd number is the negation of the one before it; AL and the last
-- number always pass.
pub condition_pairs :
    (n z c v : Bool) (k : ℕ)
    → (k < 7 → condition_passed n z c v (2 * k + 1) ≡ not (condition_passed n z c v (2 * k)))
      × (condition_passed n z c v 14 ≡ true)
      × (condition_passed n z c v 15 ≡ true)
unfolding condition_passed
condition_pairs n z c v zero = (λ h. refl, refl, refl)
condition_pairs n z c v (suc zero) = (λ h. refl, refl, refl)
condition_pairs n z c v (suc (suc zero)) = (λ h. refl, refl, refl)
condition_pairs n z c v (suc (suc (suc zero))) = (λ h. refl, refl, refl)
condition_pairs n z c v (suc (suc (suc (suc zero)))) = (λ h. ground arith, refl, refl)
condition_pairs n z c v (suc (suc (suc (suc (suc zero))))) = (λ h. refl, refl, refl)
condition_pairs n z c v (suc (suc (suc (suc (suc (suc zero)))))) = (λ h. ground arith, refl, refl)
condition_pairs n z c v (suc (suc (suc (suc (suc (suc (suc k))))))) =
    (λ h. absurd (omega arith), refl, refl)
