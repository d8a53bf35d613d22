-- ===== src/Debug/Set.antt =====
-- The table as the set of the names that it holds.
use native.Mathlib.Decide.{dec_lt}
use projet_s.Common.{
  ℕ, suc, ◌<◌, ◌≡◌, ◌⊎◌, inl, inr, refl, sym, ◌∙◌, arith, Bool, true, false, List,
}
use projet_s.Outcome.{Outcome, ok}
use projet_s.Debug.{Table, empty, max_files_number, add_debug_to, is_debugged}
use projet_s.Debug.Search.{IsSorted, Within, Finds, is_debugged-Finds, found, missing}
use projet_s.Debug.Insert.{Inserted, early, new, late, spot, add_debug_to-IsSorted}

abbrev pub Holds : Table → List ℕ → Type 0
Holds t name = Within t.debugged_files name 0 t.nb_debugged_files

-- The table is sorted and holds the members of a set.
pub record Represents (t : Table) (set : List ℕ → Type 0) : Type 0 where
  pub sorted : IsSorted t
  pub holds : (name : List ℕ) → set name → Holds t name
  pub only : (name : List ℕ) → Holds t name → set name

-- At the start the table is the empty set.
pub empty-Represents : Represents empty (λ name. ⊥)
empty-Represents = record {
  sorted = λ i j a b. elim (none_below j b) [ ];
  holds = λ name h. elim h [ ];
  only = λ name (i, a, b, e). none_below i b;
}
  where
    none_below : (i : ℕ) → i < 0 → ⊥
    none_below i h = omega arith

module _ {files : ℕ → List ℕ} {name : List ℕ} {from past : ℕ} where
  yes_answer :
      {run : Outcome Bool}
      → Finds files name from past run
      → Within files name from past
      → run ≡ ok true
  yes_answer (found there) w = refl
  yes_answer (missing none) (i, a, b, e) = elim (none i a b e) [ ]

  no_answer :
      {run : Outcome Bool}
      → Finds files name from past run
      → ¬ Within files name from past
      → run ≡ ok false
  no_answer (found there) w = elim (w there) [ ]
  no_answer (missing none) w = refl

-- The search of the table answers whether a name is in the set.
pub is_debugged-Represents :
    {set : List ℕ → Type 0} (t : Table) (name : List ℕ)
    → Represents t set
    → (set name → is_debugged t name ≡ ok true) × (¬ set name → is_debugged t name ≡ ok false)
is_debugged-Represents t name rep =
    let finds = is_debugged-Finds t rep.sorted name in
    (λ h. yes_answer finds (rep.holds name h), λ h. no_answer finds (λ w. h (rep.only name w)))

-- With room for another name, `add_debug_to` adds the name to the set, and the search afterwards
-- answers for the larger set: yes for the name and the members, no for what is neither.
pub add_debug_to-Represents :
    (set : List ℕ → Type 0) (t : Table) (name : List ℕ)
    → t.nb_debugged_files < max_files_number
    → Represents t set
    → (t' : Table) × (add_debug_to t name ≡ ok t')
      × Represents t' (λ x. (x ≡ name) ⊎ set x)
      × ((x : List ℕ)
          → ((x ≡ name) ⊎ set x → is_debugged t' x ≡ ok true)
            × (¬ ((x ≡ name) ⊎ set x) → is_debugged t' x ≡ ok false))
add_debug_to-Represents set t name room rep =
    let (p, t', done, inserted, sorted) = add_debug_to-IsSorted t name room rep.sorted in
    let still : Represents t' (λ x. (x ≡ name) ⊎ set x) = record {
      sorted = sorted;
      holds = holds p t' inserted;
      only = only p t' inserted;
    } in
    (t', done, still, λ x. is_debugged-Represents t' x still)
  where
    holds :
        (p : ℕ) (t' : Table) → Inserted t name p t' → (x : List ℕ) → (x ≡ name) ⊎ set x → Holds t' x
    holds p t' inserted x (inl e) =
        (p, omega arith, omega (arith, inserted.at_end, inserted.one_more), inserted.here ∙ sym e)
    holds p t' inserted x (inr h) =
        let (i, a, b, e) = rep.holds x h in
        elim (dec_lt i p) [
          | yes low ↦ (i, a, omega (arith, inserted.one_more), inserted.low i low ∙ e)
          | no high ↦ (
            suc i,
            omega arith,
            omega (arith, inserted.one_more),
            inserted.moved i (omega arith) b ∙ e,
          )
        ]

    only :
        (p : ℕ) (t' : Table) → Inserted t name p t' → (x : List ℕ) → Holds t' x → (x ≡ name) ⊎ set x
    only p t' inserted x (i, a, b, e) = elim (spot t name p t' inserted i b) [
      | early c f ↦ inr (rep.only x (i, omega arith, omega (arith, inserted.at_end), sym f ∙ e))
      | new c f ↦ inl (sym e ∙ f)
      | late k c d m f ↦ inr (rep.only x (k, omega arith, m, sym f ∙ e))
    ]
