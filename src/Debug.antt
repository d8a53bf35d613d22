-- ===== src/Debug.antt =====
-- debug.c: the sorted table of the source files whose debug output is on.
pub mod Search
pub mod Insert
pub mod Set
pub mod Output
use Prim.Native.Nat.{Ordering}
use projet_s.Common.{
  ℕ, zero, suc, ◌+◌, ◌-◌, ◌/◌, Bool, true, false, ltb, leb, ◌==◌, ◌&&◌, if◌then◌else◌, List, [],
  ◌∷◌,
}
use projet_s.Outcome.{Outcome, ok, fault, unfinished, ◌>>=◌}
use projet_s.Memory.{update}
use projet_s.Text.{strcmp, same_text}

abbrev pub max_files_number : ℕ
max_files_number = 64

-- The array and the number of names in it.
pub record Table : Type 0 where
  pub debugged_files : ℕ → List ℕ
  pub nb_debugged_files : ℕ

-- The static variables at the start.
abbrev pub empty : Table
empty = record { debugged_files = λ i. []; nb_debugged_files = 0 }

abbrev pub put : (ℕ → List ℕ) → ℕ → List ℕ → ℕ → List ℕ
put files i name j = if i == j then name else files j

-- debugged_files[i] = name, which C gives no meaning past the array.
unfoldable pub assign : (ℕ → List ℕ) → ℕ → List ℕ → Outcome (ℕ → List ℕ)
assign files i name = if ltb i max_files_number then ok (put files i name) else fault

abbrev pub is_before : List ℕ → List ℕ → Bool
is_before a b = elim (strcmp a b) [ Ordering.lt ↦ true | _ ↦ false ]

-- The first loop of `add_debug_to`, for the rounds that are left before i reaches the end of the
-- names or of the array.
unfoldable pub position : (ℕ → List ℕ) → List ℕ → ℕ → ℕ → ℕ
position files name zero i = i
position files name (suc n) i =
    let later = position files name n (i + 1) in if is_before (files i) name then later else i

-- The second loop, for n rounds left: j = i + n.
unfoldable pub shift : ℕ → ℕ → (ℕ → List ℕ) → Outcome (ℕ → List ℕ)
unfolding assign
shift i zero files = ok files
shift i (suc n) files = do files ← assign files (i + suc n) (files (i + n)); shift i n files

abbrev pub rounds : ℕ → ℕ
rounds nb = if ltb nb max_files_number then nb else max_files_number

unfoldable pub add_debug_to : Table → List ℕ → Outcome Table
unfolding position shift assign
add_debug_to t name =
    let nb = t.nb_debugged_files in
    let i = position t.debugged_files name (rounds nb) 0 in
    if leb max_files_number i then ok t else do
      files ← shift i (nb - i) t.debugged_files
      files ← assign files i name
      ok (record { debugged_files = files; nb_debugged_files = nb + 1 })

-- The loop of `__is_debugged`. The variable `to` may become -1, so `past` is to + 1.
unfoldable pub search : (ℕ → List ℕ) → List ℕ → ℕ → ℕ → ℕ → Outcome Bool
search files name zero from past = unfinished
search files name (suc n) from past =
    let middle = (from + (past - 1)) / 2 in
    let above = search files name n (middle + 1) past in
    let below = search files name n from middle in
    if ltb (from + 1) past
    then elim (strcmp (files middle) name) [
      | Ordering.lt ↦ above
      | Ordering.gt ↦ below
      | Ordering.eq ↦ ok true
    ]
    else ok ((from + 1 == past) && same_text (files from) name)

-- The number of names is enough rounds.
unfoldable pub is_debugged : Table → List ℕ → Outcome Bool
unfolding search
is_debugged t name = search t.debugged_files name (t.nb_debugged_files + 1) 0 t.nb_debugged_files
