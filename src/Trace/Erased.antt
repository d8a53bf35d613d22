-- ===== src/Trace/Erased.antt =====
-- The trace beside the processor: it never changes what the processor does.
use projet_s.Common.{◌<◌, ap, arith, ℕ, ◌≡◌, refl, ◌∙◌, sym, true, false, inl, inr, both_ways}
use projet_s.Outcome.{Outcome, ok, fault, exited, unfinished, Ensures, Ensures-weaken, ◌>>=◌}
use projet_s.Memory.{update}
use projet_s.Word.Signed.{pos, ◌+ℤ◌, ◌-ℤ◌}
use projet_s.Trace.{Trace, trace_register, trace_memory, trace_start_location, trace_end_location}
use projet_s.Trace.Core.{Traced, at_location}
use projet_s.Trace.Prints.{SameStack, IsReady, Prints, trace_register-Prints, trace_memory-Prints}

-- Without the trace the run is the other one, and it leaves the stack as it is.
pub record Erases {ℓ} {A : Type ℓ} (t : Trace) (run : Outcome A) (traced : Traced A) : Type ℓ where
  pub erased : (traced >>= λ r. ok r.0) ≡ run
  pub balanced : Ensures traced (λ r. SameStack t r.1)

>>=-ok {ℓ} : {A : Type ℓ} (run : Outcome A) → (run >>= λ a. ok a) ≡ run
>>=-ok fault = refl
>>=-ok (exited n) = refl
>>=-ok unfinished = refl
>>=-ok (ok a) = refl

-- A run and then a line of the trace.
Erases-line {ℓ κ} :
    {A : Type ℓ} {B : Type κ} (t : Trace) (run : Outcome A) (line : A → Outcome Trace)
    (result : A → B)
    → ((a : A) → Prints t (line a))
    → Erases t (run >>= λ a. ok (result a)) (run >>= λ a. line a >>= λ t. ok (result a, t))
Erases-line t fault line result prints = record { erased = refl; balanced = record { holds = tt } }
Erases-line t (exited n) line result prints = record {
  erased = refl;
  balanced = record { holds = tt };
}
Erases-line t unfinished line result prints = record {
  erased = refl;
  balanced = record { holds = tt };
}
Erases-line t (ok a) line result prints =
    let (t', run, same) = prints a in
    rw run (record { erased = refl; balanced = record { holds = same } })

pub Erases->>= {ℓ κ} :
    {A : Type ℓ} {B : Type κ} (t : Trace) (run : Outcome A) (traced : Traced A)
    (next : A → Outcome B) (traced_next : A × Trace → Traced B)
    → Erases t run traced
    → ((a : A) (s : Trace) → SameStack t s → Erases s (next a) (traced_next (a, s)))
    → Erases t (run >>= next) (traced >>= traced_next)
Erases->>= {A} {B} t run traced next traced_next first second = from traced first
  where
    from : (m : Traced A) → Erases t run m → Erases t (run >>= next) (m >>= traced_next)
    from fault e = record {
      erased = ap (λ run. run >>= next) e.erased;
      balanced = record { holds = tt };
    }
    from (exited n) e = record {
      erased = ap (λ run. run >>= next) e.erased;
      balanced = record { holds = tt };
    }
    from unfinished e = record {
      erased = ap (λ run. run >>= next) e.erased;
      balanced = record { holds = tt };
    }
    from (ok (a, s)) e =
        let same = e.balanced.holds in
        let rest = second a s same in
        record {
          erased = rest.erased ∙ ap (λ run. run >>= next) e.erased;
          balanced = Ensures-weaken rest.balanced λ r more. (more.0 ∙ same.0, more.1 ∙ same.1);
        }

module _ (t : Trace) (ready : IsReady t) where
  -- A result, and a line on a register.
  pub Erases-register {ℓ} :
      {A : Type ℓ} (a : A) (cycle type reg mode value : ℕ)
      → reg < 18
      → mode < 32
      → Erases t (ok a) (trace_register t cycle type reg mode value >>= λ t. ok (a, t))
  Erases-register a cycle type reg mode value h k =
      Erases-line t (ok a) (λ x. trace_register t cycle type reg mode value) (λ x. x)
        λ x. trace_register-Prints t cycle type reg mode value h k ready

  -- An access to the memory, and a line on it.
  pub Erases-memory {ℓ κ} :
      {A : Type ℓ} {B : Type κ} (run : Outcome A) (result : A → B) (value : A → ℕ)
      (cycle type size cause address : ℕ)
      → Erases t (run >>= λ a. ok (result a)) (
          run >>= λ a.
          trace_memory t cycle type size cause address (value a) >>= λ t. ok (result a, t))
  Erases-memory run result value cycle type size cause address =
      Erases-line t run (λ a. trace_memory t cycle type size cause address (value a)) result
        λ a. trace_memory-Prints t cycle type size cause address (value a) ready

  -- An access whose result is passed on, and a line on it.
  pub Erases-read {ℓ} :
      {A : Type ℓ} (run : Outcome A) (value : A → ℕ) (cycle type size cause address : ℕ)
      → Erases t run
          (run >>= λ a. trace_memory t cycle type size cause address (value a) >>= λ t. ok (a, t))
  Erases-read run value cycle type size cause address =
      let e = Erases-memory run (λ a. a) value cycle type size cause address in
      record { erased = e.erased ∙ >>=-ok run; balanced = e.balanced }

-- A line, and what is done afterwards.
pub Erases-then {ℓ κ} :
    {A : Type ℓ} {B : Type κ} (t : Trace) (run : Outcome A) (line : A → Outcome Trace)
    (next : A → Outcome B) (traced_next : A → Trace → Traced B)
    → ((a : A) → Prints t (line a))
    → ((a : A) (s : Trace) → SameStack t s → Erases s (next a) (traced_next a s))
    → Erases t (run >>= next) (run >>= λ a. line a >>= λ s. traced_next a s)
Erases-then t fault line next traced_next prints each = record {
  erased = refl;
  balanced = record { holds = tt };
}
Erases-then t (exited n) line next traced_next prints each = record {
  erased = refl;
  balanced = record { holds = tt };
}
Erases-then t unfinished line next traced_next prints each = record {
  erased = refl;
  balanced = record { holds = tt };
}
Erases-then t (ok a) line next traced_next prints each =
    let (s, run, same) = prints a in
    let rest = each a s same in
    rw run (record {
      erased = rest.erased;
      balanced = Ensures-weaken rest.balanced λ r more. (more.0 ∙ same.0, more.1 ∙ same.1);
    })

pub IsReady-same : (t s : Trace) → SameStack t s → IsReady t → IsReady s
IsReady-same t s same (inl off) = inl (same.1 ∙ off)
IsReady-same t s same (inr here) =
    inr (record { depth = here.depth; top = same.0 ∙ here.top; fits = here.fits })

-- The stack of locations has room for one more.
pub record HasRoom (t : Trace) : Type 0 where
  pub depth : ℕ
  pub top : t.location_stack_top ≡ pos depth -ℤ pos 1
  pub fits : depth < 128

pushed : (d : ℕ) → pos d -ℤ pos 1 +ℤ pos 1 ≡ pos d
pushed d = ground arith

-- The location is closed again after the run.
Erases-end {ℓ} :
    {A : Type ℓ} (t s : Trace) (plus : A → ℕ → A) (run : Outcome A) (traced : Traced A)
    → ((a : A) → plus a 0 ≡ a)
    → ((u : Trace) → SameStack s u → SameStack t (trace_end_location u).1)
    → Erases s run traced
    → Erases t run
        (traced >>= λ r. ok (plus r.0 (trace_end_location r.1).0, (trace_end_location r.1).1))
unfolding trace_end_location
Erases-end t s plus run fault none closes e = record {
  erased = e.erased;
  balanced = record { holds = tt };
}
Erases-end t s plus run (exited n) none closes e = record {
  erased = e.erased;
  balanced = record { holds = tt };
}
Erases-end t s plus run unfinished none closes e = record {
  erased = e.erased;
  balanced = record { holds = tt };
}
Erases-end t s plus run (ok (a, u)) none closes e = record {
  erased = ap ok (none a) ∙ e.erased;
  balanced = record { holds = closes u e.balanced.holds };
}

module _ (t : Trace) (file line : ℕ) (room : HasRoom t) where
  abbrev pub opened : Trace
  opened = record t {
    location_stack_top = pos room.depth;
    location_file_stack = update t.location_file_stack room.depth file;
    location_line_stack = update t.location_line_stack room.depth line;
  }

  pub trace_start_location-opened : t.enabled ≡ true → trace_start_location t file line ≡ ok opened
  unfolding trace_start_location
  trace_start_location-opened on = rw (on, room.top, pushed room.depth) (ground (arith, room.fits))

  trace_start_location-disabled : t.enabled ≡ false → trace_start_location t file line ≡ ok t
  unfolding trace_start_location
  trace_start_location-disabled off = rw off refl

  closes_opened :
      t.enabled ≡ true → (u : Trace) → SameStack opened u → SameStack t (trace_end_location u).1
  unfolding trace_end_location
  closes_opened on u same = rw (same.1 ∙ on, same.0) (sym room.top, sym on)

  closes_disabled :
      t.enabled ≡ false → (u : Trace) → SameStack t u → SameStack t (trace_end_location u).1
  unfolding trace_end_location
  closes_disabled off u same = rw (same.1 ∙ off) (same.0, sym off)

  pub Erases-at_location {ℓ} :
      {A : Type ℓ} (plus : A → ℕ → A) (run : Outcome A) (access : Trace → Traced A)
      → ((a : A) → plus a 0 ≡ a)
      → ((s : Trace) → IsReady s → Erases s run (access s))
      → Erases t run (at_location t file line plus access)
  unfolding at_location
  Erases-at_location plus run access none each =
      both_ways t.enabled
        (λ on. rw (trace_start_location-opened on) (
          Erases-end t opened plus run (access opened) none (closes_opened on)
            (each opened (inr (record { depth = room.depth; top = refl; fits = room.fits })))))
        λ off.
          rw (trace_start_location-disabled off)
            (Erases-end t t plus run (access t) none (closes_disabled off) (each t (inl off)))
