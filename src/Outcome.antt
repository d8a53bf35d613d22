-- ===== src/Outcome.antt =====
-- The end of a run of C code: a value, an access outside an array, a call of `exit`, or none yet,
-- after the rounds that a loop was given.
use projet_s.Common.{ℕ, ◌≡◌, refl, Bool, true, false, if◌then◌else◌}

pub data Outcome {ℓ} (A : Type ℓ) : Type ℓ where
  ok : A → Outcome A
  fault : Outcome A
  exited : ℕ → Outcome A
  unfinished : Outcome A

infixl 5 ◌>>=◌
abbrev pub ◌>>=◌ {κ ℓ} : {B : Type κ} {A : Type ℓ} → Outcome A → (A → Outcome B) → Outcome B
fault >>= next = fault
exited status >>= next = exited status
unfinished >>= next = unfinished
ok a >>= next = next a

abbrev pub Holds {ℓ κ} : {A : Type ℓ} → Outcome A → (A → Type κ) → Type κ
Holds (ok a) P = P a
Holds fault P = Unit
Holds (exited n) P = Unit
Holds unfinished P = Unit

-- `P` holds of the value of the run, if it ends with one.
pub record Ensures {ℓ κ} {A : Type ℓ} (run : Outcome A) (P : A → Type κ) : Type κ where
  pub holds : Holds run P

-- A run that ends with a value had a first part that did.
pub >>=-eq-ok {κ ℓ} :
    {B : Type κ} {b : B} {A : Type ℓ} (next : A → Outcome B) (first : Outcome A)
    → (first >>= next) ≡ ok b
    → (a : A) × (first ≡ ok a) × (next a ≡ ok b)
>>=-eq-ok next fault done = cc
>>=-eq-ok next (exited status) done = cc
>>=-eq-ok next unfinished done = cc
>>=-eq-ok next (ok a) done = (a, refl, done)

-- What holds of the value of the first part serves the second.
pub Ensures->>= {ℓ κ ι μ} :
    {A : Type ℓ} {B : Type κ} {P : A → Type ι} {Q : B → Type μ} {first : Outcome A}
    {next : A → Outcome B}
    → Ensures first P
    → ((a : A) → P a → Ensures (next a) Q)
    → Ensures (first >>= next) Q
Ensures->>= {A} {P} {Q} {first} {next} e = bind first e.holds
  where
    bind :
        (m : Outcome A) → Holds m P → ((a : A) → P a → Ensures (next a) Q) → Ensures (m >>= next) Q
    bind fault p q = record { holds = tt }
    bind (exited status) p q = record { holds = tt }
    bind unfinished p q = record { holds = tt }
    bind (ok a) p q = q a p

pub Ensures-if {ℓ κ} :
    {A : Type ℓ} {P : A → Type κ} (b : Bool) {first second : Outcome A}
    → Ensures first P
    → Ensures second P
    → Ensures (if b then first else second) P
Ensures-if true p q = p
Ensures-if false p q = q

pub Ensures-ok {ℓ κ} : {A : Type ℓ} {P : A → Type κ} {a : A} → P a → Ensures (ok a) P
Ensures-ok p = record { holds = p }

-- What holds of the value for each index, holds of it for all.
pub Ensures-all {ℓ κ ι} :
    {A : Type ℓ} {I : Type ι} {P : I → A → Type κ} {run : Outcome A}
    → ((i : I) → Ensures run (P i))
    → Ensures run (λ a. (i : I) → P i a)
Ensures-all {A} {I} {P} {run} each = record { holds = all run (λ i. (each i).holds) }
  where
    all : (m : Outcome A) → ((i : I) → Holds m (P i)) → Holds m (λ a. (i : I) → P i a)
    all (ok a) h = h
    all fault h = tt
    all (exited status) h = tt
    all unfinished h = tt

pub Ensures-and {ℓ κ ι} :
    {A : Type ℓ} {P : A → Type κ} {Q : A → Type ι} {run : Outcome A}
    → Ensures run P
    → Ensures run Q
    → Ensures run (λ a. P a × Q a)
Ensures-and {A} {P} {Q} {run} p q = record { holds = both run p.holds q.holds }
  where
    both : (m : Outcome A) → Holds m P → Holds m Q → Holds m (λ a. P a × Q a)
    both (ok a) h k = (h, k)
    both fault h k = tt
    both (exited status) h k = tt
    both unfinished h k = tt

-- A run that ends with a value is equal to it.
pub Ensures-itself {ℓ} : {A : Type ℓ} (run : Outcome A) → Ensures run (λ a. run ≡ ok a)
Ensures-itself (ok a) = record { holds = refl }
Ensures-itself fault = record { holds = tt }
Ensures-itself (exited status) = record { holds = tt }
Ensures-itself unfinished = record { holds = tt }

pub Ensures-at {ℓ κ} :
    {A : Type ℓ} {P : A → Type κ} {run : Outcome A} {a : A} → Ensures run P → run ≡ ok a → P a
Ensures-at e h = rw h at e.holds

pub Ensures-weaken {ℓ κ ι} :
    {A : Type ℓ} {P : A → Type κ} {Q : A → Type ι} {run : Outcome A}
    → Ensures run P
    → ((a : A) → P a → Q a)
    → Ensures run Q
Ensures-weaken {A} {P} {Q} {run} e f = record { holds = weaken run e.holds }
  where
    weaken : (m : Outcome A) → Holds m P → Holds m Q
    weaken (ok a) h = f a h
    weaken fault h = tt
    weaken (exited status) h = tt
    weaken unfinished h = tt
