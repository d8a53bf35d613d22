-- ===== src/Constants/ShiftType.antt =====
-- arm_constants.h: the shift operations.
use projet_s.Common.{ℕ}

abbrev pub lsl : ℕ
lsl = 0

abbrev pub lsr : ℕ
lsr = 1

abbrev pub asr : ℕ
asr = 2

abbrev pub ror : ℕ
ror = 3
