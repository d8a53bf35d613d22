-- ===== src/Constants/Opcode.antt =====
-- arm_constants.h: the operations of the data processing instructions.
use projet_s.Common.{ℕ}

abbrev pub and : ℕ
and = 0b0

abbrev pub eor : ℕ
eor = 0b1

abbrev pub sub : ℕ
sub = 0b10

abbrev pub rsb : ℕ
rsb = 0b11

abbrev pub add : ℕ
add = 0b100

abbrev pub adc : ℕ
adc = 0b101

abbrev pub sbc : ℕ
sbc = 0b110

abbrev pub rsc : ℕ
rsc = 0b111

abbrev pub tst : ℕ
tst = 0b1000

abbrev pub teq : ℕ
teq = 0b1001

abbrev pub cmp : ℕ
cmp = 0b1010

abbrev pub cmn : ℕ
cmn = 0b1011

abbrev pub orr : ℕ
orr = 0b1100

abbrev pub mov : ℕ
mov = 0b1101

abbrev pub bic : ℕ
bic = 0b1110

abbrev pub mvn : ℕ
mvn = 0b1111
