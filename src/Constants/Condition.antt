-- ===== src/Constants/Condition.antt =====
-- arm_constants.h: the conditions of execution.
use projet_s.Common.{ℕ}

abbrev pub eq : ℕ
eq = 0b0

abbrev pub ne : ℕ
ne = 0b1

abbrev pub cs : ℕ
cs = 0b10

abbrev pub cc : ℕ
cc = 0b11

abbrev pub mi : ℕ
mi = 0b100

abbrev pub pl : ℕ
pl = 0b101

abbrev pub vs : ℕ
vs = 0b110

abbrev pub vc : ℕ
vc = 0b111

abbrev pub hi : ℕ
hi = 0b1000

abbrev pub ls : ℕ
ls = 0b1001

abbrev pub ge : ℕ
ge = 0b1010

abbrev pub lt : ℕ
lt = 0b1011

abbrev pub gt : ℕ
gt = 0b1100

abbrev pub le : ℕ
le = 0b1101

abbrev pub al : ℕ
al = 0b1110
