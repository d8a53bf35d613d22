-- ===== src/InsertionSort/Counts.antt =====
-- The numbers of an array that pass a test, which the sort does not change.
use projet_s.Common.{
  ==_iff, ℕ, zero, suc, ◌+◌, ◌<◌, ◌≡◌, refl, arith, ◌==◌, Bool, true, both_ways, to_bit,
}
use projet_s.Word.Signed.{ℤ}
use projet_s.InsertionSort.{Array, put}

abbrev pub count : (ℤ → Bool) → Array → ℕ → ℕ
count test t zero = 0
count test t (suc n) = count test t n + to_bit (test (t n))

pub count-eq :
    (test : ℤ → Bool) (t u : Array) (n : ℕ)
    → ((i : ℕ) → i < n → t i ≡ u i)
    → count test t n ≡ count test u n
count-eq test t u zero same = refl
count-eq test t u (suc n) same =
    ground (arith, count-eq test t u n (λ i h. same i (omega arith)), same n)

-- The place of p moves down by one, and the number there moves up.
two_places :
    (test : ℤ → Bool) (t : Array) (p : ℤ) (j : ℕ)
    → count test (put (put t (suc j) (t j)) j p) (suc (suc j))
      ≡ count test (put t (suc j) p) (suc (suc j))
two_places test t p j = ground (arith, below_both)
  where
    below_both : count test (put (put t (suc j) (t j)) j p) j ≡ count test (put t (suc j) p) j
    below_both =
        count-eq test (put (put t (suc j) (t j)) j p) (put t (suc j) p) j λ i h. ground arith

pub count-move :
    (test : ℤ → Bool) (t : Array) (p : ℤ) (j n : ℕ)
    → suc j < n
    → count test (put (put t (suc j) (t j)) j p) n ≡ count test (put t (suc j) p) n
count-move test t p j zero h = ground arith
count-move test t p j (suc n) h =
    both_ways (suc j == n) last
      λ inner. ground (arith, count-move test t p j n (ground (arith, inner)))
  where
    last :
        (suc j == n) ≡ true
        → count test (put (put t (suc j) (t j)) j p) (suc n) ≡ count test (put t (suc j) p) (suc n)
    last e = rw (← ((==_iff (suc j) n).0 e)) (two_places test t p j)
