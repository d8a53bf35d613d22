-- ===== src/Debug/Search.antt =====
-- The binary search of `__is_debugged` ends, and finds what is in the table.
use Prim.Native.Nat.{Ordering}
use native.Mathlib.Decide.{dec_lt}
use projet_s.Common.{
  both_ways, ap, ◌∙◌, sym, ◌∙◌, ap, both_ways, ℕ, zero, suc, ◌+◌, ◌-◌, ◌/◌, ◌<◌, ◌≤◌, ◌≡◌, ◌≢◌,
  refl, arith, Bool, true, false, ltb, ◌==◌, ◌&&◌, List,
}
use projet_s.Outcome.{Outcome, ok}
use projet_s.Text.{strcmp, same_text, strcmp-eq, strcmp_refl, strcmp-le_lt}
use projet_s.Debug.{Table, search, is_debugged}

-- The names stand in the order of `strcmp`.
abbrev pub IsSorted : Table → Type 0
IsSorted t =
    (i j : ℕ)
    → i ≤ j
    → j < t.nb_debugged_files
    → strcmp (t.debugged_files i) (t.debugged_files j) ≢ Ordering.gt

-- One of the names from `from` up to `past`.
abbrev pub Within : (ℕ → List ℕ) → List ℕ → ℕ → ℕ → Type 0
Within files name from past = (i : ℕ) × (from ≤ i) × (i < past) × (files i ≡ name)

-- The search ended, and found the name exactly if it is there.
pub data Finds (files : ℕ → List ℕ) (name : List ℕ) (from past : ℕ) : Outcome Bool → Type 0 where
  found : Within files name from past → Finds files name from past (ok true)
  missing : ((i : ℕ) → from ≤ i → i < past → files i ≢ name) → Finds files name from past (ok false)

-- The answer for a part of the names is that for all, if the others are not the name.
narrow :
    (files : ℕ → List ℕ) (name : List ℕ) (from past from' past' : ℕ) {run : Outcome Bool}
    → from ≤ from'
    → past' ≤ past
    → ((i : ℕ) → from ≤ i → i < from' → files i ≢ name)
    → ((i : ℕ) → past' ≤ i → i < past → files i ≢ name)
    → Finds files name from' past' run
    → Finds files name from past run
narrow files name from past from' past' h k before after (found (i, a, b, e)) =
    found (i, omega arith, omega arith, e)
narrow files name from past from' past' h k before after (missing none) = missing λ i a b.
    elim (dec_lt i from') [
      | yes low ↦ before i a low
      | no high ↦ elim (dec_lt i past') [
        | yes inside ↦ none i (omega arith) inside
        | no late ↦ after i (omega arith) b
      ]
    ]

one_left :
    (files : ℕ → List ℕ) (name : List ℕ) (from past : ℕ)
    → past ≤ from + 1
    → from ≤ past
    → Finds files name from past (ok ((from + 1 == past) && same_text (files from) name))
one_left files name from past h k =
    both_ways ((from + 1 == past) && same_text (files from) name)
      (λ same.
        rw same
          (found (from, omega arith, ground arith, strcmp-eq (files from) name (ground arith))))
      λ other. rw other (
        missing λ i a b e.
          let index : i ≡ from = omega arith in
          let same : strcmp (files from) name ≡ Ordering.eq =
            ap (λ j. strcmp (files j) name) (sym index)
            ∙ ap (λ a. strcmp a name) e
            ∙ strcmp_refl name in
          ground arith)

module _ (t : Table) (sorted : IsSorted t) (name : List ℕ) where
  differs : (i : ℕ) → strcmp (t.debugged_files i) name ≢ Ordering.eq → t.debugged_files i ≢ name
  differs i h e = h (ap (λ a. strcmp a name) e ∙ strcmp_refl name)

  -- What comes before a name that is less, and what comes after a name that is more, is not the name.
  below_middle :
      (middle i : ℕ)
      → middle < t.nb_debugged_files
      → strcmp (t.debugged_files middle) name ≡ Ordering.lt
      → i ≤ middle
      → t.debugged_files i ≢ name
  below_middle middle i h less low = differs i (λ e.
      let earlier =
        strcmp-le_lt (t.debugged_files i) (t.debugged_files middle) name (sorted i middle low h)
          less in
      ground arith)

  above_middle :
      (middle i : ℕ)
      → strcmp (t.debugged_files middle) name ≡ Ordering.gt
      → middle ≤ i
      → i < t.nb_debugged_files
      → t.debugged_files i ≢ name
  above_middle middle i more high inside e =
      sorted middle i high inside (ap (strcmp (t.debugged_files middle)) e ∙ more)

  -- A round that looks at the name in the middle, for what the two halves give.
  probe :
      (from past middle : ℕ) (above below : Outcome Bool) (o : Ordering)
      → strcmp (t.debugged_files middle) name ≡ o
      → from ≤ middle
      → middle < past
      → past ≤ t.nb_debugged_files
      → Finds t.debugged_files name (middle + 1) past above
      → Finds t.debugged_files name from middle below
      → Finds t.debugged_files name from past
          (elim o [ Ordering.lt ↦ above | Ordering.gt ↦ below | Ordering.eq ↦ ok true ])
  probe from past middle above below Ordering.lt less h k inside up down =
      narrow t.debugged_files name from past (middle + 1) past (omega arith) (omega arith)
        (λ i a b. below_middle middle i (omega arith) less (omega arith))
        (λ i a b. elim (crossed a b) [ ]) up
    where
      crossed : {i : ℕ} → past ≤ i → i < past → ⊥
      crossed h k = omega arith
  probe from past middle above below Ordering.eq same h k inside up down =
      found (middle, h, k, strcmp-eq _ _ same)
  probe from past middle above below Ordering.gt more h k inside up down =
      narrow t.debugged_files name from past from middle (omega arith) (omega arith)
        (λ i a b. elim (crossed a b) [ ]) (λ i a b. above_middle middle i more a (omega arith)) down
    where
      crossed : {i : ℕ} → from ≤ i → i < from → ⊥
      crossed h k = omega arith

  search-Finds :
      (n from past : ℕ)
      → past < from + n
      → past ≤ t.nb_debugged_files
      → from ≤ past
      → Finds t.debugged_files name from past (search t.debugged_files name n from past)
  unfolding search
  search-Finds zero from past enough inside h = elim absurd [ ]
    where
      absurd : ⊥
      absurd = omega arith
  search-Finds (suc n) from past enough inside h =
      let middle = (from + (past - 1)) / 2 in
      let above = λ (more : from + 1 < past).
        search-Finds n (middle + 1) past (omega arith) inside (omega arith) in
      let below = λ (more : from + 1 < past).
        search-Finds n from middle (omega arith) (omega arith) (omega arith) in
      both_ways (ltb (from + 1) past)
        (λ several.
          let more : from + 1 < past = ground arith in
          rw several (
            probe from past middle _ _ (strcmp (t.debugged_files middle) name) refl (omega arith)
              (omega arith) inside (above more) (below more)))
        λ few. rw few (one_left t.debugged_files name from past (ground arith) h)

  -- In a sorted table the search ends, and it answers whether the name is among those in the table.
  pub is_debugged-Finds : Finds t.debugged_files name 0 t.nb_debugged_files (is_debugged t name)
  unfolding is_debugged
  is_debugged-Finds =
      search-Finds (t.nb_debugged_files + 1) 0 t.nb_debugged_files (omega arith) (omega arith)
        (omega arith)
