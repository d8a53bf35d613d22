-- ===== src/Debug/Insert.antt =====
-- `add_debug_to` keeps the table sorted, and adds the name to it.
use Prim.Native.Nat.{Ordering}
use native.Mathlib.Decide.{dec_lt}
use projet_s.Common.{
  ℕ, zero, suc, ◌+◌, ◌-◌, ◌<◌, ◌≤◌, ◌≡◌, ◌≢◌, refl, sym, ap, ◌∙◌, arith, true, false, both_ways,
  ltb, leb, List,
}
use projet_s.Outcome.{ok, fault}
use projet_s.Text.{strcmp, strcmp_refl, strcmp-gt_le, strcmp-opposite}
use projet_s.Debug.{
  Table, max_files_number, put, assign, is_before, position, shift, rounds, add_debug_to,
}
use projet_s.Debug.Search.{IsSorted}

abbrev Files : Type 0
Files = ℕ → List ℕ

-- Where the first loop stops.
record Stops (files : Files) (name : List ℕ) (n i p : ℕ) : Type 0 where
  from_start : i ≤ p
  to_end : p ≤ i + n
  before : (j : ℕ) → i ≤ j → j < p → is_before (files j) name ≡ true
  stopped : p < i + n → is_before (files p) name ≡ false

position-Stops :
    (files : Files) (name : List ℕ) (n i : ℕ) → Stops files name n i (position files name n i)
unfolding position
position-Stops files name zero i = record {
  from_start = omega arith;
  to_end = omega arith;
  before = λ j a b. ground arith;
  stopped = λ a. ground arith;
}
position-Stops files name (suc n) i =
    both_ways (is_before (files i) name)
      (λ less.
        let later = position-Stops files name n (i + 1) in
        rw less (record {
          from_start = omega (arith, later.from_start);
          to_end = omega (arith, later.to_end);
          before = λ j a b. elim (dec_lt i j) [
            | yes after ↦ later.before j (omega arith) b
            | no first ↦ ap (λ k. is_before (files k) name) (at_start j a first) ∙ less
          ];
          stopped = λ a. later.stopped (omega arith);
        }))
      λ other. rw other (record {
        from_start = omega arith;
        to_end = omega arith;
        before = λ j a b. ground arith;
        stopped = λ a. other;
      })
  where
    at_start : (j : ℕ) → i ≤ j → ¬ (i < j) → j ≡ i
    at_start j a b = omega arith

-- The names from i on have moved on by one place.
record Shifted (i n : ℕ) (files files' : Files) : Type 0 where
  low : (j : ℕ) → j ≤ i → files' j ≡ files j
  moved : (j : ℕ) → i ≤ j → j < i + n → files' (suc j) ≡ files j
  high : (j : ℕ) → i + n < j → files' j ≡ files j

shift-Shifted :
    (i n : ℕ) (files : Files)
    → i + n < max_files_number
    → (files' : Files) × (shift i n files ≡ ok files') × Shifted i n files files'
unfolding shift assign
shift-Shifted i zero files fits =
    (files, refl, record { low = λ j a. refl; moved = λ j a b. ground arith; high = λ j a. refl })
shift-Shifted i (suc n) files fits =
    let next = put files (i + suc n) (files (i + n)) in
    let (files', done, kept) = shift-Shifted i n next (omega arith) in
    let inside : ltb (i + suc n) max_files_number ≡ true = ground arith in
    (
      files',
      rw inside done,
      record {
        low = λ j a. kept.low j a ∙ ground arith;
        moved = λ j a b. elim (dec_lt j (i + n)) [
          | yes earlier ↦ kept.moved j a earlier ∙ ground arith
          | no last ↦ kept.high (suc j) (omega arith) ∙ ground arith
        ];
        high = λ j a. kept.high j (omega arith) ∙ ground arith;
      },
    )

-- The name stands at p, and the names that were there and after have moved on by one place.
pub record Inserted (t : Table) (name : List ℕ) (p : ℕ) (t' : Table) : Type 0 where
  pub at_end : p ≤ t.nb_debugged_files
  pub one_more : t'.nb_debugged_files ≡ t.nb_debugged_files + 1
  pub low : (j : ℕ) → j < p → t'.debugged_files j ≡ t.debugged_files j
  pub here : t'.debugged_files p ≡ name
  pub moved :
      (j : ℕ) → p ≤ j → j < t.nb_debugged_files → t'.debugged_files (suc j) ≡ t.debugged_files j

module _ (t : Table) (name : List ℕ) (room : t.nb_debugged_files < max_files_number) where
  place : ℕ
  place = position t.debugged_files name (rounds t.nb_debugged_files) 0

  place-Stops : Stops t.debugged_files name t.nb_debugged_files 0 place
  unfolding place
  place-Stops = rw all (position-Stops t.debugged_files name t.nb_debugged_files 0)
    where
      all : rounds t.nb_debugged_files ≡ t.nb_debugged_files
      all = ground arith

  add_debug_to-Inserted : (t' : Table) × (add_debug_to t name ≡ ok t') × Inserted t name place t'
  unfolding add_debug_to place assign
  add_debug_to-Inserted =
      let nb = t.nb_debugged_files in
      let stops = place-Stops in
      let (files', done, shifted) =
        shift-Shifted place (nb - place) t.debugged_files (omega (arith, stops.to_end)) in
      let inside : leb max_files_number place ≡ false = ground (arith, stops.to_end) in
      let fits : ltb place max_files_number ≡ true = ground (arith, stops.to_end) in
      (
        record { debugged_files = put files' place name; nb_debugged_files = nb + 1 },
        rw (inside, done, fits) refl,
        record {
          at_end = omega (arith, stops.to_end);
          one_more = refl;
          low = λ j a. ground (arith, shifted.low j (omega arith));
          here = ground arith;
          moved = λ j a b. ground (arith, shifted.moved j a (omega arith));
        },
      )

-- What a place of the new table holds.
pub data Spot (t : Table) (name : List ℕ) (p j : ℕ) (file : List ℕ) : Type 0 where
  early : j < p → file ≡ t.debugged_files j → Spot t name p j file
  new : j ≡ p → file ≡ name → Spot t name p j file
  late :
      (k : ℕ)
      → j ≡ suc k
      → p ≤ k
      → k < t.nb_debugged_files
      → file ≡ t.debugged_files k
      → Spot t name p j file

-- Two names that are in order, under other descriptions.
in_order : {a b x y : List ℕ} → a ≡ x → b ≡ y → strcmp x y ≢ Ordering.gt → strcmp a b ≢ Ordering.gt
in_order {b} {x} p q h e = h (ap (strcmp x) (sym q) ∙ ap (λ a. strcmp a b) (sym p) ∙ e)

module _ (t : Table) (name : List ℕ) (p : ℕ) (t' : Table) (inserted : Inserted t name p t') where
  pub spot : (j : ℕ) → j < t'.nb_debugged_files → Spot t name p j (t'.debugged_files j)
  spot j h = elim (dec_lt j p) [
    | yes low ↦ early low (inserted.low j low)
    | no high ↦ elim (dec_lt p j) [
      | no same ↦ new (equal high same) (ap t'.debugged_files (equal high same) ∙ inserted.here)
      | yes above ↦
          let index : j ≡ suc (j - 1) = omega arith in
          late (j - 1) index (omega arith) (omega (arith, inserted.one_more)) (
            ap t'.debugged_files index
            ∙ inserted.moved (j - 1) (omega arith) (omega (arith, inserted.one_more)))
    ]
  ]
    where
      equal : ¬ (j < p) → ¬ (p < j) → j ≡ p
      equal a b = omega arith

  module _ (sorted : IsSorted t) (stops : Stops t.debugged_files name t.nb_debugged_files 0 p) where
    earlier : (j : ℕ) → j < p → strcmp (t.debugged_files j) name ≢ Ordering.gt
    earlier j h = ground (arith, stops.before j (omega arith) h)

    later :
        (j : ℕ) → p ≤ j → j < t.nb_debugged_files → strcmp name (t.debugged_files j) ≢ Ordering.gt
    later j h k =
        strcmp-gt_le name (t.debugged_files p) (t.debugged_files j)
          (ground (arith, strcmp-opposite (t.debugged_files p) name, stops.stopped (omega arith)))
          (sorted p j h k)

    ordered :
        (i j : ℕ) {file file' : List ℕ}
        → i ≤ j
        → Spot t name p i file
        → Spot t name p j file'
        → strcmp file file' ≢ Ordering.gt
    ordered i j h (early a e) (early b f) =
        in_order e f (sorted i j h (omega (arith, inserted.at_end)))
    ordered i j h (early a e) (new b f) = in_order e f (earlier i a)
    ordered i j h (early a e) (late k b c d f) = in_order e f (sorted i k (omega arith) d)
    ordered i j h (new a e) (early b f) = ground arith
    ordered i j h (new a e) (new b f) = in_order e f (ground (arith, strcmp_refl name))
    ordered i j h (new a e) (late k b c d f) = in_order e f (later k c d)
    ordered i j h (late l a b c e) (early d f) = ground arith
    ordered i j h (late l a b c e) (new d f) = ground arith
    ordered i j h (late l a b c e) (late k d m n f) = in_order e f (sorted l k (omega arith) n)

    inserted-IsSorted : IsSorted t'
    inserted-IsSorted i j h k = ordered i j h (spot i (omega arith)) (spot j k)

-- With room for another name, the name is put into a sorted table at a place that keeps it sorted.
pub add_debug_to-IsSorted :
    (t : Table) (name : List ℕ)
    → t.nb_debugged_files < max_files_number
    → IsSorted t
    → (p : ℕ) × (t' : Table) × (add_debug_to t name ≡ ok t') × Inserted t name p t' × IsSorted t'
add_debug_to-IsSorted t name room sorted =
    let (t', done, inserted) = add_debug_to-Inserted t name room in
    let p = place t name room in
    (p, t', done, inserted, inserted-IsSorted t name p t' inserted sorted (place-Stops t name room))

all_left : (p : ℕ) → p < max_files_number → max_files_number - p ≡ suc (max_files_number - p - 1)
all_left p h = omega arith

past_end :
    (p : ℕ)
    → p < max_files_number
    → ltb (p + suc (max_files_number - p - 1)) max_files_number ≡ false
past_end p h = ground arith

not_past : (p : ℕ) → p < max_files_number → leb max_files_number p ≡ false
not_past p h = ground arith

-- If the table is full and the name is not after all names in it, the last name is written past the
-- end of the array.
pub add_debug_to-full :
    (t : Table) (name : List ℕ)
    → t.nb_debugged_files ≡ max_files_number
    → (j : ℕ) → j < max_files_number
    → is_before (t.debugged_files j) name ≡ false
    → add_debug_to t name ≡ fault
unfolding add_debug_to shift assign
add_debug_to-full t name full j inside after =
    let p = position t.debugged_files name max_files_number 0 in
    let stops = position-Stops t.debugged_files name max_files_number 0 in
    let low : p < max_files_number = elim (dec_lt j p) [
      | yes h ↦ ground (arith, stops.before j (omega arith) h)
      | no h ↦ omega arith
    ] in
    rw (full, not_past p low, all_left p low, past_end p low) refl
