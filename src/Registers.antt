-- ===== src/Registers.antt =====
-- registers.c: the 37 words of the register file, banked by the mode in the CPSR.
pub mod Bank
pub mod Access
use projet_s.Common.{ℕ, ◌+◌, Bool, bit_and, ◌&&◌, ◌||◌, not, leb, ◌==◌, to_bit, if◌then◌else◌}
use projet_s.Constants.{cpsr, usr, fiq, irq, svc, abt, und, sys}
use projet_s.Memory.{update}

-- `uint32_t *`. `registers_create` leaves the words as `malloc` finds them.
abbrev pub Registers : Type 0
Registers = ℕ → ℕ

unfoldable pub read_cpsr : Registers → ℕ
read_cpsr r = r cpsr

-- The mode fits the `uint8_t` that is returned.
unfoldable pub get_mode : Registers → ℕ
unfolding read_cpsr
get_mode r = bit_and (read_cpsr r) 0b11111

unfoldable pub current_mode_has_spsr : Registers → Bool
current_mode_has_spsr r = not (get_mode r == usr) && not (get_mode r == sys)

unfoldable pub in_a_privileged_mode : Registers → Bool
in_a_privileged_mode r = not (get_mode r == usr)

unfoldable pub mode_offset : ℕ → ℕ
mode_offset mode =
    if mode == usr
    then 0
    else if mode == sys
    then 0
    else if mode == svc
    then 4
    else if mode == abt
    then 6
    else if mode == und
    then 8
    else if mode == irq
    then 10
    else if mode == fiq
    then 17
    else 0

-- The index that `read_register` and `write_register` use.
unfoldable pub register_index : ℕ → ℕ → ℕ
register_index mode reg =
    if reg == 13 || reg == 14 || (leb 8 reg && leb reg 12 && mode == fiq)
    then reg + mode_offset mode
    else reg

unfoldable pub read_register : Registers → ℕ → ℕ
read_register r reg = r (register_index (get_mode r) reg)

unfoldable pub read_usr_register : Registers → ℕ → ℕ
read_usr_register r reg = r reg

unfoldable pub read_spsr : Registers → ℕ
read_spsr r =
    let mode = get_mode r in
    if mode == svc
    then r 32
    else if mode == abt
    then r 33
    else if mode == und
    then r 34
    else if mode == irq
    then r 35
    else if mode == fiq
    then r 36
    else 0

unfoldable pub write_register : Registers → ℕ → ℕ → Registers
write_register r reg value = update r (register_index (get_mode r) reg) value

unfoldable pub write_usr_register : Registers → ℕ → ℕ → Registers
write_usr_register r reg value = update r reg value

unfoldable pub write_cpsr : Registers → ℕ → Registers
write_cpsr r value = update r cpsr value

-- Five tests in a row, each on the same mode.
unfoldable pub write_spsr : Registers → ℕ → Registers
write_spsr r value =
    let mode = get_mode r in
    let r = if mode == svc then update r 32 value else r in
    let r = if mode == abt then update r 33 value else r in
    let r = if mode == und then update r 34 value else r in
    let r = if mode == irq then update r 35 value else r in
    if mode == fiq then update r 36 value else r
