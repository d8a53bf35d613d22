-- ===== src/Trace/Aligned.antt =====
-- Accesses to a memory whose size 4 divides: which of them stay inside the array.
use projet_s.Common.{ℕ, ◌%◌, ◌≡◌}
use projet_s.Outcome.{Outcome, ok}
use projet_s.Word.{Host}
use projet_s.Memory
use projet_s.Memory.{Memory, update}
use projet_s.Registers
use projet_s.Arm
use projet_s.Arm.{ArmCore}
use projet_s.Arm.Pc
use projet_s.Trace.{Trace}
use projet_s.Trace.Accesses.{Result}
use projet_s.Trace.Fit.{IsAligned}

module _ (host : Host) {size : ℕ} (whole : size % 4 ≡ 0) where
  module _ (p : ArmCore) (here : IsAligned size p) where
    -- A call that gives a result and an aligned state.
    abbrev Performs : Outcome Result → Type 0
    Performs run = (r : Result) × (run ≡ ok r) × IsAligned size r.2

    abbrev into : ℕ × Memory → ℕ × ArmCore
    into r = (r.0, record p { mem = r.1 })
