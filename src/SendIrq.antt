-- ===== src/SendIrq.antt =====
-- send_irq.c: the choice of the exception that is sent.
pub mod Socket
use Prim.Native.String.{String}
use projet_s.Common.{
  ◌≡◌, ◌≤◌, refl, sym, ap, ◌∙◌, arith, both_ways, false, ℕ, zero, suc, ◌+◌, ltb, if◌then◌else◌,
  Option, none, some, List, [], ◌∷◌,
}
use projet_s.Constants.{reset, interrupt}
use projet_s.Constants.Names.{arm_get_exception_name}
use projet_s.Outcome.{
  Ensures, Ensures-ok, Ensures->>=, Ensures-itself, Ensures-at, Outcome, ok, exited, unfinished,
  ◌>>=◌,
}
use projet_s.Word.{u8}
use projet_s.Text.{same_text, same_text-eq, codes}

-- The loop over the names from `irq` on, for a number of rounds; a name that is not found exits.
unfoldable pub find_irq : ℕ → ℕ → List ℕ → Outcome ℕ
find_irq zero irq text = unfinished
find_irq (suc n) irq text = do
  irq_name ← arm_get_exception_name irq
  elim irq_name [
    | none ↦ exited 2
    | some name ↦ if same_text (codes name) text then ok irq else find_irq n (u8 (irq + 1)) text
  ]

-- The loop of the usage text, over the names from `irq` on, for a number of rounds.
unfoldable pub usage_names : ℕ → ℕ → Outcome (List String)
usage_names zero irq = unfinished
usage_names (suc n) irq = do
  irq_name ← arm_get_exception_name irq
  elim irq_name [
    | none ↦ ok []
    | some name ↦ usage_names n (u8 (irq + 1)) >>= λ rest. ok (name ∷ rest)
  ]

-- The number of arguments, with the name of the program, and the third of the others. There are
-- eight names, so nine rounds are enough.
unfoldable pub select_irq : ℕ → List ℕ → Outcome ℕ
unfolding find_irq
select_irq argc text =
    if ltb argc 3 then exited 1 else if ltb argc 4 then ok interrupt else find_irq 9 reset text

-- A text that is the name of an exception.
abbrev pub Named : ℕ → List ℕ → Type 0
Named irq text =
    (name : String) × (arm_get_exception_name irq ≡ ok (some name)) × (codes name ≡ text)

find_irq-Named : (n irq : ℕ) (text : List ℕ) → Ensures (find_irq n irq text) (λ i. Named i text)
unfolding find_irq
find_irq-Named zero irq text = record { holds = tt }
find_irq-Named (suc n) irq text =
    Ensures->>= (Ensures-itself (arm_get_exception_name irq))
      λ irq_name e. check irq_name e (find_irq-Named n (u8 (irq + 1)) text)
  where
    check :
        (irq_name : Option String)
        → arm_get_exception_name irq ≡ ok irq_name
        → {next : Outcome ℕ} → Ensures next (λ i. Named i text)
        → Ensures
            (elim irq_name [
              | none ↦ exited 2
              | some name ↦ if same_text (codes name) text then ok irq else next
            ])
            (λ i. Named i text)
    check none e later = record { holds = tt }
    check (some name) e later =
        both_ways (same_text (codes name) text)
          (λ same. rw same (Ensures-ok (name, e, same_text-eq (codes name) text same)))
          λ other. rw other later

-- The number of a name that stands in the table, and that the loop finds there.
found :
    (irq : ℕ) (given : String) (text : List ℕ)
    → arm_get_exception_name irq ≡ ok (some given)
    → find_irq 9 reset (codes given) ≡ ok irq
    → Named irq text
    → find_irq 9 reset text ≡ ok irq
found irq given text entry loop (name, e, f) = ap (find_irq 9 reset) (sym f ∙ ap codes same) ∙ loop
  where
    same : name ≡ given
    same = cc

nameless :
    (irq : ℕ) (text : List ℕ)
    → arm_get_exception_name irq ≡ ok none
    → Named irq text
    → find_irq 9 reset text ≡ ok irq
nameless irq text h (name, e, f) = cc

found_by_name : (irq : ℕ) (text : List ℕ) → Named irq text → find_irq 9 reset text ≡ ok irq
unfolding arm_get_exception_name find_irq
found_by_name zero text named = nameless 0 text refl named
found_by_name (suc zero) text named = found 1 "reset" text refl refl named
found_by_name (suc (suc zero)) text named = found 2 "undefined instruction" text refl refl named
found_by_name (suc (suc (suc zero))) text named = found 3 "software interrupt" text refl refl named
found_by_name (suc (suc (suc (suc zero)))) text named =
    found 4 "prefetch abort" text refl refl named
found_by_name (suc (suc (suc (suc (suc zero))))) text named =
    found 5 "data abort" text refl refl named
found_by_name (suc (suc (suc (suc (suc (suc zero)))))) text named =
    found 6 "imprecise_abort" text refl refl named
found_by_name (suc (suc (suc (suc (suc (suc (suc zero))))))) text named =
    found 7 "interrupt" text refl refl named
found_by_name (suc (suc (suc (suc (suc (suc (suc (suc zero)))))))) text named =
    found 8 "fast interrupt" text refl refl named
found_by_name (suc (suc (suc (suc (suc (suc (suc (suc (suc n))))))))) text named =
    nameless (suc (suc (suc (suc (suc (suc (suc (suc (suc n))))))))) text (ground arith) named

missing : (text : List ℕ) → ((irq : ℕ) → ¬ Named irq text) → find_irq 9 reset text ≡ exited 2
unfolding arm_get_exception_name find_irq
missing text none_is =
    rw
      (
        other 1 "reset" refl,
        other 2 "undefined instruction" refl,
        other 3 "software interrupt" refl,
        other 4 "prefetch abort" refl,
        other 5 "data abort" refl,
        other 6 "imprecise_abort" refl,
        other 7 "interrupt" refl,
        other 8 "fast interrupt" refl,
      )
      refl
  where
    other :
        (irq : ℕ) (name : String)
        → arm_get_exception_name irq ≡ ok (some name)
        → same_text (codes name) text ≡ false
    other irq name e =
        both_ways (same_text (codes name) text)
          (λ same. elim (none_is irq (name, e, same_text-eq (codes name) text same)) [ ])
          λ differs. differs

-- With a name, the program sends the number of the exception that has the name, and exits with
-- status 2 if none has.
pub select_irq_lem :
    (argc : ℕ) (text : List ℕ)
    → 4 ≤ argc
    → ((irq : ℕ)
        → (select_irq argc text ≡ ok irq → Named irq text)
          × (Named irq text → select_irq argc text ≡ ok irq))
      × (((irq : ℕ) → ¬ Named irq text) → select_irq argc text ≡ exited 2)
unfolding select_irq
select_irq_lem argc text h =
    rw (enough, given)
      (
        λ irq. (λ e. Ensures-at (find_irq-Named 9 reset text) e, found_by_name irq text),
        missing text,
      )
  where
    enough : ltb argc 3 ≡ false
    enough = ground arith

    given : ltb argc 4 ≡ false
    given = ground arith
