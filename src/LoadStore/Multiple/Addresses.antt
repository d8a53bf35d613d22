-- ===== src/LoadStore/Multiple/Addresses.antt =====
-- The addresses of a multiple transfer, from the number of registers in its list.
use projet_s.Common.{
  ℕ, zero, suc, ◌+◌, ◌*◌, ◌/◌, ◌%◌, ◌^◌, ◌<◌, ◌≤◌, ◌≡◌, arith, ◌∙◌, ap, ◌==◌, nonzero,
  if◌then◌else◌,
}
use projet_s.Word.{Host, add32, sub32}
use projet_s.Util.{get_bit}
use projet_s.Util.Fields.{get_bit-eq-mod}
use projet_s.LoadStore.Multiple.{in_list, lower, first_address}

-- The number of registers in the list, of the n from ri on.
unfoldable pub listed : ℕ → ℕ → ℕ → ℕ
listed ins zero ri = 0
listed ins (suc n) ri = ins / 2 ^ ri % 2 + listed ins n (ri + 1)

listed-le : (ins n ri : ℕ) → listed ins n ri ≤ n
unfolding listed
listed-le ins zero ri = omega arith
listed-le ins (suc n) ri = omega (arith, listed-le ins n (ri + 1))

-- The address after a round of the loop that lowers it.
abbrev next : ℕ → ℕ → ℕ
next a bit = if nonzero bit then sub32 a 4 else a

next-lt : (a : ℕ) → a < 2 ^ 32 → (bit : ℕ) → next a bit < 2 ^ 32
next-lt a fits bit = ground arith

lowered :
    (a : ℕ)
    → a < 2 ^ 32
    → (bit : ℕ) → bit < 2
    → (m : ℕ) → m < 16
    → sub32 (next a bit) (4 * m) ≡ sub32 a (4 * (bit + m))
lowered a fits bit small m few = ground arith

module _ (host : Host) (ins : ℕ) where
  pub in_list-eq-mod : (ri : ℕ) → ri < 32 → in_list host ins ri ≡ nonzero (ins / 2 ^ ri % 2)
  unfolding in_list
  in_list-eq-mod ri h = ap nonzero (unfold get_bit in get_bit-eq-mod host ins ri h)

  lower-eq-sub :
      (n ri a : ℕ)
      → ri + n ≤ 16
      → a < 2 ^ 32
      → lower host ins n ri a ≡ sub32 a (4 * listed ins n ri)
  unfolding lower listed
  lower-eq-sub zero ri a h fits = omega arith
  lower-eq-sub (suc n) ri a h fits = rw (in_list-eq-mod ri (omega arith)) (
      lower-eq-sub n (ri + 1) (next a (ins / 2 ^ ri % 2)) (omega arith)
        (next-lt a fits (ins / 2 ^ ri % 2))
      ∙ lowered a fits (ins / 2 ^ ri % 2) (omega arith) (listed ins n (ri + 1))
          (omega (arith, listed-le ins n (ri + 1))))

  -- The first transfer of a multiple transfer from a base that is a word: upwards (bit 23) it is at
  -- the base, or a word above it if bit 24 is set; downwards at the lowest address of the block that
  -- ends a word below the base if bit 24 is set, and at the base otherwise.
  pub first_address_lem :
      (start : ℕ)
      → start < 2 ^ 32
      → let n = listed ins 16 0 in
        first_address host ins start ≡ (
          if ins / 2 ^ 23 % 2 == 1
          then (if ins / 2 ^ 24 % 2 == 1 then add32 start 4 else start)
          else if ins / 2 ^ 24 % 2 == 1
          then sub32 start (4 * n)
          else add32 (sub32 start (4 * n)) 4)
  unfolding first_address
  first_address_lem start fits =
      rw
        (
          get_bit-eq-mod host ins 23 (omega arith),
          get_bit-eq-mod host ins 24 (omega arith),
          lower-eq-sub 16 0 start (omega arith) fits,
        )
        (ground arith)
