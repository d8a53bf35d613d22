-- ===== src/Registers/Access.antt =====
-- Reads after writes in the register file, within a mode and across a change of mode.
use projet_s.Common.{
  sym, ℕ, ◌%◌, ◌^◌, ◌<◌, ◌≡◌, refl, arith, ◌∙◌, ◌==◌, ◌&&◌, ◌||◌, not, Bool, if◌then◌else◌,
}
use projet_s.Constants.{cpsr, usr, fiq, irq, svc, abt, und, sys}
use projet_s.Memory.{update}
use projet_s.Registers.{
  Registers, read_cpsr, get_mode, register_index, read_register, read_spsr, write_register,
  write_cpsr, write_spsr, current_mode_has_spsr,
}
use projet_s.Registers.Bank.{
  IsMode, bank, is_banked, get_mode-eq-mod, register_index-lt, register_index-injective,
  register_index-eq_iff,
}

pub get_mode-write_register :
    (r : Registers) (reg v : ℕ) → reg < 16 → get_mode (write_register r reg v) ≡ get_mode r
unfolding write_register
get_mode-write_register r reg v h = ground (
  arith,
  get_mode-eq-mod (write_register r reg v),
  get_mode-eq-mod r,
  register_index-lt (get_mode r) reg h,
)

pub get_mode-write_cpsr : (r : Registers) (c : ℕ) → get_mode (write_cpsr r c) ≡ c % 2 ^ 5
unfolding write_cpsr
get_mode-write_cpsr r c = ground (arith, get_mode-eq-mod (write_cpsr r c))

pub read_cpsr-write_register :
    (r : Registers) (reg v : ℕ) → reg < 16 → read_cpsr (write_register r reg v) ≡ read_cpsr r
unfolding write_register read_cpsr
read_cpsr-write_register r reg v h = ground (arith, register_index-lt (get_mode r) reg h)

-- Within one mode a write of one of the sixteen registers is read back there, and no other of them
-- changes.
pub read_register-write_register :
    (r : Registers) (a b v : ℕ)
    → a < 16
    → b < 16
    → read_register (write_register r a v) b ≡ (if a == b then v else read_register r b)
unfolding read_register
read_register-write_register r a b v ha hb =
    rw (get_mode-write_register r a v ha) (same (get_mode r) refl)
  where
    same :
        (m : ℕ)
        → get_mode r ≡ m
        → write_register r a v (register_index (get_mode r) b)
          ≡ (if a == b then v else r (register_index (get_mode r) b))
    same m e =
        unfold write_register in ground (arith, register_index-injective (get_mode r) a b ha hb)

-- Between two of the seven modes, a write in one is seen after a change to the other exactly by the
-- same register if they share it; every other register reads as if there had been no write.
pub read_register-switch :
    (r : Registers) (a b v c : ℕ)
    → IsMode (get_mode r)
    → IsMode (c % 2 ^ 5)
    → a < 16
    → b < 16
    → read_register (write_cpsr (write_register r a v) c) b ≡ (
        if a == b
          && (bank (get_mode r) == bank (c % 2 ^ 5)
              || not (is_banked (get_mode r) a) && not (is_banked (c % 2 ^ 5) a))
        then v
        else read_register (write_cpsr r c) b)
unfolding read_register
read_register-switch r a b v c p q ha hb =
    rw (get_mode-write_cpsr (write_register r a v) c, get_mode-write_cpsr r c)
      (unfold write_register write_cpsr in
        ground (
          arith,
          register_index-eq_iff (get_mode r) (c % 2 ^ 5) a b p q ha hb,
          register_index-lt (get_mode r) a ha,
          register_index-lt (c % 2 ^ 5) b hb,
        ))

-- The word of the register file in which a mode saves the status word.
abbrev spsr_index : ℕ → ℕ
spsr_index m =
    if m == svc
    then 32
    else if m == abt
    then 33
    else if m == und
    then 34
    else if m == irq
    then 35
    else if m == fiq
    then 36
    else 37

abbrev pub has_spsr : ℕ → Bool
has_spsr m = not (m == usr) && not (m == sys)

write_spsr-update :
    (r : Registers) (v : ℕ)
    → IsMode (get_mode r)
    → write_spsr r v ≡ (if has_spsr (get_mode r) then update r (spsr_index (get_mode r)) v else r)
unfolding write_spsr
write_spsr-update r v p = ground arith

read_spsr-index :
    (r : Registers)
    → IsMode (get_mode r)
    → read_spsr r ≡ (if has_spsr (get_mode r) then r (spsr_index (get_mode r)) else 0)
unfolding read_spsr
read_spsr-index r p = ground arith

write_spsr-at :
    (r : Registers) (v i : ℕ)
    → IsMode (get_mode r)
    → write_spsr r v i ≡ (if has_spsr (get_mode r) && spsr_index (get_mode r) == i then v else r i)
write_spsr-at r v i p = rw (write_spsr-update r v p) (ground arith)

-- Saving a status word touches neither the sixteen registers of a mode nor the CPSR.
pub write_spsr-below :
    (r : Registers) (v i : ℕ) → IsMode (get_mode r) → i < 32 → write_spsr r v i ≡ r i
write_spsr-below r v i p h = ground (arith, write_spsr-at r v i p)

pub get_mode-write_spsr :
    (r : Registers) (v : ℕ) → IsMode (get_mode r) → get_mode (write_spsr r v) ≡ get_mode r
get_mode-write_spsr r v p = ground (
  arith,
  get_mode-eq-mod r,
  get_mode-eq-mod (write_spsr r v),
  write_spsr-below r v cpsr p (omega arith),
)

pub read_spsr-write_cpsr :
    (r : Registers) (c : ℕ)
    → IsMode (c % 2 ^ 5)
    → read_spsr (write_cpsr r c) ≡ (if has_spsr (c % 2 ^ 5) then r (spsr_index (c % 2 ^ 5)) else 0)
read_spsr-write_cpsr r c q =
    read_spsr-index (write_cpsr r c) (rw (get_mode-write_cpsr r c) q)
    ∙ rw (get_mode-write_cpsr r c) (unfold write_cpsr in ground arith)

-- Between two of the seven modes, a saved status word is read back in the mode that saved it and in
-- no other; USR and SYS, which have none, save nothing.
pub read_spsr-switch :
    (r : Registers) (v c : ℕ)
    → IsMode (get_mode r)
    → IsMode (c % 2 ^ 5)
    → read_spsr (write_cpsr (write_spsr r v) c) ≡ (
        if current_mode_has_spsr r && get_mode r == c % 2 ^ 5
        then v
        else read_spsr (write_cpsr r c))
unfolding current_mode_has_spsr
read_spsr-switch r v c p q = ground (
  arith,
  read_spsr-write_cpsr (write_spsr r v) c q,
  read_spsr-write_cpsr r c q,
  write_spsr-at r v (spsr_index (c % 2 ^ 5)) p,
)

-- A write of a register saves no status word.
pub read_spsr-write_register :
    (r : Registers) (a v c : ℕ)
    → IsMode (c % 2 ^ 5)
    → a < 16
    → read_spsr (write_cpsr (write_register r a v) c) ≡ read_spsr (write_cpsr r c)
read_spsr-write_register r a v c q ha = ground (
  arith,
  read_spsr-write_cpsr (write_register r a v) c q,
  read_spsr-write_cpsr r c q,
  write_register-above,
)
  where
    write_register-above :
        write_register r a v (spsr_index (c % 2 ^ 5)) ≡ r (spsr_index (c % 2 ^ 5))
    write_register-above =
        unfold write_register in ground (arith, register_index-lt (get_mode r) a ha)

pub read_register-write_cpsr :
    (r : Registers) (c a : ℕ)
    → a < 16
    → read_register (write_cpsr r c) a ≡ r (register_index (c % 2 ^ 5) a)
unfolding read_register
read_register-write_cpsr r c a ha =
    rw (get_mode-write_cpsr r c)
      (unfold write_cpsr in ground (arith, register_index-lt (c % 2 ^ 5) a ha))

-- A write of the program counter is seen in the program counter alone.
pub get_mode-update_pc : (r : Registers) (v : ℕ) → get_mode (update r 15 v) ≡ get_mode r
get_mode-update_pc r v = get_mode-eq-mod (update r 15 v) ∙ sym (get_mode-eq-mod r)

pub read_register-update_pc :
    (r : Registers) (v a : ℕ) → a < 15 → read_register (update r 15 v) a ≡ read_register r a
unfolding write_register register_index
read_register-update_pc r v a h =
    read_register-write_register r 15 a v (omega arith) (omega arith) ∙ ground arith

pub read_spsr-update_pc : (r : Registers) (v : ℕ) → read_spsr (update r 15 v) ≡ read_spsr r
unfolding read_spsr
read_spsr-update_pc r v = rw (get_mode-update_pc r v)
