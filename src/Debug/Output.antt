-- ===== src/Debug/Output.antt =====
-- The output of debug.c and the macros of debug.h, as they are compiled with DEBUG: what is printed
-- on the standard error, for the text that `fprintf` makes of the format.

use projet_s.Text.{codes}
use projet_s.Debug.{is_debugged, Table}
use projet_s.Outcome.{Outcome, ok, fault, ◌>>=◌}
use projet_s.Common.{
  ℕ, zero, suc, ◌≤◌, ◌≡◌, refl, ap, arith, ◌&&◌, ◌||◌, ltb, leb, Bool, true, false, if◌then◌else◌,
  both_ways, length, List, [], ◌∷◌, ◌++◌,
}

-- isprint, for ASCII.
abbrev is_printable : ℕ → Bool
is_printable c = leb 0x20 c && ltb c 0x7F

-- `__debug_raw_binary` on the characters of an array, past which a read has no meaning. The length that a call gives is not negative.
unfoldable pub debug_binary : List ℕ → ℕ → Outcome (List ℕ)
debug_binary content zero = ok []
debug_binary [] (suc len) = fault
debug_binary (c ∷ content) (suc len) = do
  rest ← debug_binary content len
  ok ((if is_printable c then c else 0x2E) ∷ rest)

-- The static variables of a source file under CACHE_DEBUG_FLAG.
pub record Flag : Type 0 where
  pub is_debugged_first : Bool
  pub is_debugged_result : Bool

abbrev pub fresh : Flag
fresh = record { is_debugged_first = true; is_debugged_result = false }

-- The macro `is_debugged` under CACHE_DEBUG_FLAG.
unfoldable pub cached : Table → List ℕ → Flag → Outcome (Bool × Flag)
cached t file flag =
    if flag.is_debugged_first
    then (is_debugged t file >>= λ result.
        ok (result || result, record { is_debugged_first = false; is_debugged_result = result }))
    else ok (flag.is_debugged_result, flag)

unfoldable pub debug_raw : Table → List ℕ → List ℕ → Outcome (List ℕ)
debug_raw t file message = do on ← is_debugged t file; ok (if on then message else [])

-- The line is the text of __LINE__.
unfoldable pub debug : Table → List ℕ → List ℕ → List ℕ → Outcome (List ℕ)
debug t file line message = do
  on ← is_debugged t file
  ok (if on then codes "[DEBUG] " ++ file ++ codes "," ++ line ++ codes ": " ++ message else [])

unfoldable pub debug_raw_binary : Table → List ℕ → List ℕ → ℕ → Outcome (List ℕ)
unfolding debug_binary
debug_raw_binary t file content len = do
  on ← is_debugged t file
  if on then debug_binary content len else ok []

-- The answers of `cached` to a file that asks with one table after the other.
unfoldable pub answers : List Table → List ℕ → Flag → Outcome (List Bool)
unfolding cached
answers [] file flag = ok []
answers (t ∷ ts) file flag = do
  (answer, flag) ← cached t file flag
  rest ← answers ts file flag
  ok (answer ∷ rest)

abbrev pub repeated : Bool → List Table → List Bool
repeated b [] = []
repeated b (t ∷ ts) = b ∷ repeated b ts

answers_later :
    (ts : List Table) (file : List ℕ) (b : Bool)
    → answers ts file (record { is_debugged_first = false; is_debugged_result = b })
      ≡ ok (repeated b ts)
unfolding answers cached
answers_later [] file b = refl
answers_later (t ∷ ts) file b = rw (answers_later ts file b) refl

-- With the cached flag, a file keeps the answer that the table of its first question gives,
-- whatever is added to the table later.
pub answers_first :
    (t : Table) (ts : List Table) (file : List ℕ) (b : Bool)
    → is_debugged t file ≡ ok b
    → answers (t ∷ ts) file fresh ≡ ok (b ∷ repeated b ts)
unfolding answers cached
answers_first t ts file b h =
    rw (h, answers_later ts file b) (ap (λ c. ok (c ∷ repeated b ts)) (both b))
  where
    both : (c : Bool) → (c || c) ≡ c
    both true = refl
    both false = refl

abbrev pub AllPrintable : List ℕ → Type 0
AllPrintable [] = Unit
AllPrintable (c ∷ cs) = (is_printable c ≡ true) × AllPrintable cs

-- A text of at least `len` characters is printed as `len` printable ones.
pub debug_binary-AllPrintable :
    (content : List ℕ) (len : ℕ)
    → len ≤ length content
    → (shown : List ℕ) × (debug_binary content len ≡ ok shown)
      × (length shown ≡ len)
      × AllPrintable shown
unfolding debug_binary
debug_binary-AllPrintable content zero h = ([], refl, refl, tt)
debug_binary-AllPrintable [] (suc len) h = ground arith
debug_binary-AllPrintable (c ∷ content) (suc len) h =
    let (shown, e, l, all) = debug_binary-AllPrintable content len (omega arith) in
    ((if is_printable c then c else 0x2E) ∷ shown, rw e refl, ap suc l, (one c, all))
  where
    one : (c : ℕ) → is_printable (if is_printable c then c else 0x2E) ≡ true
    one c = both_ways (is_printable c) (λ h. rw (h, h) refl) λ h. rw h refl
