-- ===== src/Exception/Status.antt =====
-- The mode and the masks of the status word on entry to a handler.
use projet_s.Bits.{bit_and_step, bit_and-mask, bit_and-scaled}
use projet_s.Constants.{
  abt, fiq, irq, svc, und, fast_interrupt, interrupt, data_abort, prefetch_abort,
  software_interrupt, undefined_instruction,
}
use projet_s.Exception.{entry_status}
use projet_s.Common.{
  ◌==◌, inl, inr, bit_or, zero, suc, if◌then◌else◌, ℕ, ◌+◌, ◌*◌, ◌/◌, ◌%◌, ◌^◌, ◌<◌, ◌≡◌, ◌⊎◌,
  arith, ◌∙◌, bit_and,
}

-- & 0x40 keeps bit 6, and & 0x140 bits 6 and 8.
keep_6 : (x : ℕ) → bit_and x 0x40 ≡ x / 2 ^ 6 % 2 * 2 ^ 6
keep_6 x = bit_and-scaled 6 x 1 ∙ omega (arith, bit_and-mask 1 (x / 2 ^ 6))

keep_6_8 : (x : ℕ) → bit_and x 0x140 ≡ x / 2 ^ 6 % 2 * 2 ^ 6 + x / 2 ^ 8 % 2 * 2 ^ 8
keep_6_8 x =
    bit_and-scaled 6 x 5
    ∙ omega (
      arith,
      bit_and_step (x / 2 ^ 6) 5,
      bit_and_step (x / 2 ^ 6 / 2) 2,
      bit_and-mask 1 (x / 2 ^ 6 / 2 / 2),
    )

-- The exceptions that are raised: all but RESET and the unused number 6.
abbrev pub IsRaised : ℕ → Type 0
IsRaised e =
    (e ≡ undefined_instruction)
    ⊎ (e ≡ software_interrupt)
    ⊎ (e ≡ prefetch_abort)
    ⊎ (e ≡ data_abort)
    ⊎ (e ≡ interrupt)
    ⊎ (e ≡ fast_interrupt)

-- The mode in which the architecture handles an exception.
abbrev pub handler_mode : ℕ → ℕ
handler_mode e =
    if e == undefined_instruction
    then und
    else if e == software_interrupt
    then svc
    else if e == interrupt
    then irq
    else if e == fast_interrupt
    then fiq
    else abt

-- The handler runs in that mode, in ARM state, with interrupts masked, and the flags cleared.
pub record HandlerStatus (e s : ℕ) : Type 0 where
  pub mode : s % 2 ^ 5 ≡ handler_mode e
  pub arm_state : s / 2 ^ 5 % 2 ≡ 0
  pub masks_irq : s / 2 ^ 7 % 2 ≡ 1
  pub fits : s < 2 ^ 9

-- A property of the kept bits has to be seen for their four values.
kept_cases :
    (P : ℕ → Type 0) (a b : ℕ)
    → a < 2
    → b < 2
    → P 0
    → P 0x40
    → P 0x100
    → P 0x140
    → P (a * 2 ^ 6 + b * 2 ^ 8)
kept_cases P zero zero p q h0 h1 h2 h3 = h0
kept_cases P (suc zero) zero p q h0 h1 h2 h3 = h1
kept_cases P zero (suc zero) p q h0 h1 h2 h3 = h2
kept_cases P (suc zero) (suc zero) p q h0 h1 h2 h3 = h3
kept_cases P (suc (suc a)) b p q h0 h1 h2 h3 = absurd (omega arith)
kept_cases P a (suc (suc b)) p q h0 h1 h2 h3 = absurd (omega arith)

module _ (e k : ℕ) (h : HandlerStatus e (bit_or 0 k)) (h6 : HandlerStatus e (bit_or 0x40 k)) where
  with_6 : (c : ℕ) → HandlerStatus e (bit_or (bit_and c 0x40) k)
  with_6 c = rw (keep_6 c) (pick (c / 2 ^ 6 % 2) (omega arith))
    where
      pick : (a : ℕ) → a < 2 → HandlerStatus e (bit_or (a * 2 ^ 6) k)
      pick zero p = h
      pick (suc zero) p = h6
      pick (suc (suc a)) p = absurd (omega arith)

  with_6_8 :
      (c : ℕ)
      → HandlerStatus e (bit_or 0x100 k)
      → HandlerStatus e (bit_or 0x140 k)
      → HandlerStatus e (bit_or (bit_and c 0x140) k)
  with_6_8 c h8 h68 = rw (keep_6_8 c) (
      kept_cases (λ t. HandlerStatus e (bit_or t k)) (c / 2 ^ 6 % 2) (c / 2 ^ 8 % 2) (omega arith)
        (omega arith) h h6 h8 h68)

pub entry_status-HandlerStatus : (e c : ℕ) → IsRaised e → HandlerStatus e (entry_status e c)
unfolding entry_status
entry_status-HandlerStatus e c (inl p) =
    rw p (with_6_8 2 0x9b (omega arith) (omega arith) c (omega arith) (omega arith))
entry_status-HandlerStatus e c (inr (inl p)) =
    rw p (with_6_8 3 0x93 (omega arith) (omega arith) c (omega arith) (omega arith))
entry_status-HandlerStatus e c (inr (inr (inl p))) =
    rw p (with_6 4 0x197 (omega arith) (omega arith) c)
entry_status-HandlerStatus e c (inr (inr (inr (inl p)))) =
    rw p (with_6 5 0x197 (omega arith) (omega arith) c)
entry_status-HandlerStatus e c (inr (inr (inr (inr (inl p))))) =
    rw p (with_6 7 0x192 (omega arith) (omega arith) c)
entry_status-HandlerStatus e c (inr (inr (inr (inr (inr p))))) = rw p (omega arith)
