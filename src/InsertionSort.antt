-- ===== src/InsertionSort.antt =====
-- Examples/insertion_sort.c, a program for the simulator: it sorts an array of 16 numbers in place.
pub mod Counts
pub mod Sorted
use projet_s.Common.{
  ℕ, zero, suc, ◌+◌, ◌-◌, ◌<◌, ◌≡◌, refl, arith, ◌==◌, ltb, Bool, true, false, both_ways, to_bit,
  if◌then◌else◌, List, [], ◌∷◌,
}
use projet_s.Outcome.{Outcome, ok, fault, ◌>>=◌}
use projet_s.Word.Signed.{ℤ, pos, negsuc, ltb_ℤ, leb_ℤ}

abbrev pub Array : Type 0
Array = ℕ → ℤ

abbrev pub put : Array → ℕ → ℤ → Array
put t i v j = if i == j then v else t j

-- An access outside the array of n numbers has no meaning.
abbrev pub load : ℕ → Array → ℕ → Outcome ℤ
load n t i = if ltb i n then ok (t i) else fault

abbrev pub assign : ℕ → Array → ℕ → ℤ → Outcome Array
assign n t i v = if ltb i n then ok (put t i v) else fault

-- The inner loop. The variable `j` may become -1, so the number that is counted down is j + 1; it
-- is returned with the array.
unfoldable pub shift : ℕ → Array → ℤ → ℕ → Outcome (ℕ × Array)
shift n t p zero = ok (zero, t)
shift n t p (suc j) = load n t j >>= λ x.
    let later = (assign n t (suc j) x >>= λ t. shift n t p j) in
    if ltb_ℤ p x then later else ok (suc j, t)

-- The outer loop, for the rounds that are left.
unfoldable pub insert_all : ℕ → Array → ℕ → ℕ → Outcome Array
unfolding shift
insert_all n t i zero = ok t
insert_all n t i (suc rounds) = do
  p ← load n t i
  (k, t) ← shift n t p i
  t ← assign n t k p
  insert_all n t (i + 1) rounds

unfoldable pub insertion_sort : ℕ → Array → Outcome Array
unfolding insert_all
insertion_sort n t = insert_all n t 1 (n - 1)

-- The array of `main`.
abbrev pub numbers : List ℤ
numbers =
    pos 5
    ∷ pos 16
    ∷ pos 8
    ∷ pos 8192
    ∷ pos 54
    ∷ pos 8
    ∷ pos 4096
    ∷ pos 9
    ∷ negsuc 5
    ∷ pos 65
    ∷ pos 2
    ∷ negsuc 1336
    ∷ pos 1024
    ∷ pos 2048
    ∷ pos 1
    ∷ pos 7
    ∷ []

abbrev pub array : List ℤ → Array
array [] i = pos 0
array (x ∷ xs) zero = x
array (x ∷ xs) (suc i) = array xs i

unfoldable pub main : Outcome Array
unfolding insertion_sort
main = insertion_sort 16 (array numbers)
