-- ===== src/LoadStore/Valid.antt =====
-- A single transfer keeps the well-formed states.
use projet_s.Common.{
  Bool, ℕ, ◌^◌, ◌<◌, arith, ◌==◌, ◌&&◌, ◌||◌, not, nonzero, bit_and, if◌then◌else◌, if_both,
}
use projet_s.Outcome.{Ensures, Ensures-if, Ensures-ok, Ensures->>=}
use projet_s.Bits.{bit_and-le}
use projet_s.Word.{Host}
use projet_s.Util.{get_bit}
use projet_s.Constants.{pc}
use projet_s.Arm.{ArmCore}
use projet_s.Arm.Valid.{
  IsValid, IsValid-if, read_register-lt, write_register-IsValid, write_usr_register-IsValid,
}
use projet_s.Arm.Transfers.{
  read_byte-Word, read_half-Word, read_word-Word, write_byte-IsValid, write_half-IsValid,
  write_word-IsValid,
}
use projet_s.LoadStore.{
  half_of, with_half, byte_of, with_byte, load_value, store_value, transfer, arm_load_store,
}

module _ (host : Host) where
  half_of-lt : (val : ℕ) → val < 2 ^ 32 → half_of host val < 2 ^ 16
  unfolding half_of
  half_of-lt val h = ground arith

  byte_of-lt : (val : ℕ) → val < 2 ^ 32 → byte_of host val < 2 ^ 8
  unfolding byte_of
  byte_of-lt val h = ground arith

  with_half-lt : (val half : ℕ) → val < 2 ^ 32 → half < 2 ^ 16 → with_half host val half < 2 ^ 32
  unfolding with_half
  with_half-lt val half h k = ground arith

  with_byte-lt : (val byte : ℕ) → val < 2 ^ 32 → byte < 2 ^ 8 → with_byte host val byte < 2 ^ 32
  unfolding with_byte
  with_byte-lt val byte h k = ground arith

  -- The bit 0 of a word that goes to the program counter is cleared.
  pub cleared-lt :
      (reg val : ℕ) → val < 2 ^ 32 → (if reg == pc then bit_and val 0xFFFFFFFE else val) < 2 ^ 32
  cleared-lt reg val h = ground (arith, bit_and-le 32 val 0xFFFFFFFE h)

  module _ {size : ℕ} {p : ArmCore} (valid : IsValid size p) (ins address : ℕ) where
    load_value-lt :
        host.indeterminate < 2 ^ 32 → Ensures (load_value host p ins address) (λ val. val < 2 ^ 32)
    unfolding load_value
    load_value-lt h =
        Ensures-if (nonzero (get_bit host ins 7) && nonzero (get_bit host ins 4))
          (Ensures->>= (read_half-Word host valid address _ (half_of-lt _ h))
            λ r fits. Ensures-ok (with_half-lt _ _ h fits))
          (Ensures-if (nonzero (get_bit host ins 22))
            (Ensures->>= (read_byte-Word host valid address _ (byte_of-lt _ h))
              λ r fits. Ensures-ok (with_byte-lt _ _ h fits))
            (Ensures->>= (read_word-Word host valid address _ h) λ r fits. Ensures-ok fits))

    store_value-IsValid :
        (val : ℕ) → Ensures (store_value host p ins address val) (λ r. IsValid size r.1)
    unfolding store_value
    store_value-IsValid val =
        Ensures-if (nonzero (get_bit host ins 7) && nonzero (get_bit host ins 4))
          (write_half-IsValid host valid address _)
          (Ensures-if (nonzero (get_bit host ins 22)) (write_byte-IsValid host valid address _)
            (write_word-IsValid host valid address _))

    transfer-IsValid :
        host.indeterminate < 2 ^ 32 → Ensures (transfer host p ins address) (λ r. IsValid size r.1)
    unfolding transfer
    transfer-IsValid h =
        Ensures-if (nonzero (get_bit host ins 20))
          (Ensures->>= (load_value-lt h) λ val fits. Ensures-ok (
            IsValid-if (not (nonzero (get_bit host ins 24)) && nonzero (get_bit host ins 21))
              (write_usr_register-IsValid valid _ _ (cleared-lt _ val fits))
              (write_register-IsValid valid _ _ (cleared-lt _ val fits))))
          (store_value-IsValid _)

  pub arm_load_store-IsValid :
      {size : ℕ} {p : ArmCore}
      → IsValid size p
      → (ins : ℕ) → host.indeterminate < 2 ^ 32
      → Ensures (arm_load_store host p ins) (λ r. IsValid size r.1)
  unfolding arm_load_store
  arm_load_store-IsValid valid ins h = Ensures->>= (transfer-IsValid valid ins _ h) λ r still.
      Ensures-ok (
        IsValid-if (not (nonzero (get_bit host ins 24)) || nonzero (get_bit host ins 21))
          (write_register-IsValid still _ _ (
            if_both (λ a. a < 2 ^ 32) is_p
              (if_both (λ a. a < 2 ^ 32) is_p (omega arith) (read_register-lt valid _))
              (omega arith)))
          still)
    where
      is_p : Bool
      is_p = nonzero (get_bit host ins 24)
