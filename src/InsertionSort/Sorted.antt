-- ===== src/InsertionSort/Sorted.antt =====
-- The sort puts the numbers of the array in order.
use projet_s.Instruction.{same}
use projet_s.Common.{
  ℕ, zero, suc, ◌+◌, ◌-◌, ◌<◌, ◌≤◌, ◌≡◌, ◌≢◌, refl, ap, ◌∙◌, arith, ◌==◌, ltb, Bool, true, false,
  both_ways, ==_iff,
}
use projet_s.Outcome.{ok}
use projet_s.Word.Signed.{ℤ, ltb_ℤ, leb_ℤ}
use projet_s.InsertionSort.{Array, put, shift, insert_all, insertion_sort}
use projet_s.InsertionSort.Counts.{count, count-move, count-eq}

infix 50 ◌≤ℤ◌
abbrev ◌≤ℤ◌ : ℤ → ℤ → Type 0
a ≤ℤ b = leb_ℤ a b ≡ true

-- The first m numbers are in order.
abbrev pub IsSorted : Array → ℕ → Type 0
IsSorted t m = (a b : ℕ) → a < b → b < m → leb_ℤ (t a) (t b) ≡ true

-- As often as in u, a number below n passes a test, whatever the test.
abbrev pub SameNumbers : ℕ → Array → Array → Type 0
SameNumbers n t u = (test : ℤ → Bool) → count test t n ≡ count test u n

-- The numbers up to i without that at k, which is left for p: they are in order, and p is not
-- above those after k.
record Gap (t : Array) (p : ℤ) (k i : ℕ) : Type 0 where
  ordered : (a b : ℕ) → a < b → b ≤ i → a ≢ k → b ≢ k → t a ≤ℤ t b
  above : (b : ℕ) → k < b → b ≤ i → p ≤ℤ t b

-- The place k that the inner loop finds for p, and the array then.
record Found (n i : ℕ) (t : Array) (p : ℤ) (start k : ℕ) (u : Array) : Type 0 where
  found : shift n t p start ≡ ok (k, u)
  inside : k ≤ i
  gap : Gap u p k i
  before : (a : ℕ) → a < k → u a ≤ℤ p
  numbers : SameNumbers n (put u k p) (put t start p)

≤ℤ_trans : (a b c : ℤ) → a ≤ℤ b → b ≤ℤ c → a ≤ℤ c
≤ℤ_trans a b c h k = ground arith

module _ (n i : ℕ) (inside_array : i < n) (p : ℤ) where
  in_range : (j : ℕ) → j ≤ i → ltb j n ≡ true
  in_range j h = ground (arith, inside_array)

  -- One round of the inner loop.
  moved :
      (t : Array) (j : ℕ)
      → suc j ≤ i
      → Gap t p (suc j) i
      → ltb_ℤ p (t j) ≡ true
      → Gap (put t (suc j) (t j)) p j i
  moved t j h gap larger = record {
    ordered = λ a b less last not_a not_b.
        ground (arith, gap.ordered a b, gap.ordered a j, gap.ordered j b);
    above = λ b less last. ground (arith, gap.above b);
  }

  below_all :
      (t : Array) (j : ℕ)
      → suc j ≤ i
      → Gap t p (suc j) i
      → ltb_ℤ p (t j) ≡ false
      → (a : ℕ) → a < suc j
      → t a ≤ℤ p
  below_all t j h gap smaller a less = ground (arith, gap.ordered a j)

  shift-Found :
      (t : Array) (start : ℕ)
      → start ≤ i
      → Gap t p start i
      → (k : ℕ) × (u : Array) × Found n i t p start k u
  unfolding shift
  shift-Found t zero h gap = (
    zero,
    t,
    record {
      found = refl;
      inside = h;
      gap = gap;
      before = λ a less. ground arith;
      numbers = λ test. refl;
    },
  )
  shift-Found t (suc j) h gap =
      both_ways (ltb_ℤ p (t j))
        (λ larger.
          further larger
            (shift-Found (put t (suc j) (t j)) j (omega arith) (moved t j h gap larger)))
        λ smaller. (
          suc j,
          t,
          record {
            found = rw (in_range j (omega arith), smaller) refl;
            inside = h;
            gap = gap;
            before = below_all t j h gap smaller;
            numbers = λ test. refl;
          },
        )
    where
      further :
          ltb_ℤ p (t j) ≡ true
          → (k : ℕ) × (u : Array) × Found n i (put t (suc j) (t j)) p j k u
          → (k : ℕ) × (u : Array) × Found n i t p (suc j) k u
      further larger (k, u, f) = (
        k,
        u,
        record {
          found = rw (in_range j (omega arith), larger, in_range (suc j) (omega arith)) f.found;
          inside = f.inside;
          gap = f.gap;
          before = f.before;
          numbers =
              λ test. f.numbers test ∙ count-move test t p j n (omega (arith, inside_array, h));
        },
      )

  -- The hole is filled.
  filled :
      (u : Array) (k : ℕ)
      → Gap u p k i
      → k ≤ i
      → ((a : ℕ) → a < k → u a ≤ℤ p)
      → IsSorted (put u k p) (i + 1)
  filled u k gap small before a b less last = ground (arith, gap.ordered a b, gap.above b, before a)

module _ (n : ℕ) where
  -- One round of the outer loop.
  record Inserted (i : ℕ) (t u : Array) : Type 0 where
    inserted : (rounds : ℕ) → insert_all n t i (suc rounds) ≡ insert_all n u (i + 1) rounds
    sorted : IsSorted u (i + 1)
    numbers : SameNumbers n u t

  first_gap : (t : Array) (i : ℕ) → IsSorted t i → Gap t (t i) i i
  first_gap t i sorted = record {
    ordered = λ a b less last not_a not_b. sorted a b less (omega arith);
    above = λ b less last. ground arith;
  }

  put_self : (t : Array) (i j : ℕ) → put t i (t i) j ≡ t j
  put_self t i j = both_ways (i == j) (λ e. rw e (ap t ((==_iff i j).0 e))) λ e. rw e refl

  one_round :
      (t u : Array) (i k rounds : ℕ)
      → i < n
      → k ≤ i
      → shift n t (t i) i ≡ ok (k, u)
      → insert_all n t i (suc rounds) ≡ insert_all n (put u k (t i)) (i + 1) rounds
  unfolding insert_all
  one_round t u i k rounds h low e = rw (here, e, place) refl
    where
      here : ltb i n ≡ true
      here = ground arith

      place : ltb k n ≡ true
      place = ground arith

  insert_one : (t : Array) (i : ℕ) → i < n → IsSorted t i → (u : Array) × Inserted i t u
  insert_one t i h sorted = round (shift-Found n i h (t i) t i (omega arith) (first_gap t i sorted))
    where
      round : (k : ℕ) × (u : Array) × Found n i t (t i) i k u → (u : Array) × Inserted i t u
      round (k, u, f) = (
        put u k (t i),
        record {
          inserted = λ rounds. one_round t u i k rounds h f.inside f.found;
          sorted = filled n i h (t i) u k f.gap f.inside f.before;
          numbers =
              λ test. f.numbers test ∙ count-eq test (put t i (t i)) t n (λ j low. put_self t i j);
        },
      )

  insert_all-IsSorted :
      (rounds i : ℕ) (t : Array)
      → i + rounds ≡ n
      → IsSorted t i
      → (u : Array) × (insert_all n t i rounds ≡ ok u) × IsSorted u n × SameNumbers n u t
  unfolding insert_all
  insert_all-IsSorted zero i t total sorted =
      (t, refl, λ a b less last. sorted a b less (omega arith), λ test. refl)
  insert_all-IsSorted (suc rounds) i t total sorted =
      let (u, one) = insert_one t i (omega arith) sorted in
      let (v, done, all, same) = insert_all-IsSorted rounds (i + 1) u (omega arith) one.sorted in
      (v, one.inserted rounds ∙ done, all, λ test. same test ∙ one.numbers test)

-- The sort ends with an array of the same numbers in order, and makes no access outside the array,
-- whatever its length and its numbers.
pub insertion_sort-IsSorted :
    (n : ℕ) (t : Array)
    → (u : Array) × (insertion_sort n t ≡ ok u) × IsSorted u n × SameNumbers n u t
unfolding insertion_sort insert_all
insertion_sort-IsSorted zero t = (t, refl, λ a b less last. ground arith, λ test. refl)
insertion_sort-IsSorted (suc n) t =
    let e : suc n - 1 ≡ n = omega arith in
    rw e (insert_all-IsSorted (suc n) n 1 t (omega arith) λ a b less last. ground arith)
