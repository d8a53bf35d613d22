-- ===== src/LoadStore/Multiple/Valid.antt =====
-- A multiple transfer keeps the well-formed states.
use projet_s.Common.{Bool, ℕ, zero, suc, ◌+◌, ◌*◌, ◌^◌, ◌<◌, arith, nonzero, if◌then◌else◌}
use projet_s.Outcome.{Ensures, Ensures-if, Ensures-ok, Ensures->>=}
use projet_s.Word.{Host, add32, sub32}
use projet_s.Util.{get_bit, get_bits}
use projet_s.Arm
use projet_s.Arm.{ArmCore}
use projet_s.Arm.Valid.{IsValid, IsValid-if, write_register-IsValid}
use projet_s.Arm.Transfers.{read_word-Word, write_word-IsValid}
use projet_s.LoadStore.Valid.{cleared-lt}
use projet_s.LoadStore.Multiple.{
  Transfer, in_list, transfer_one, transfer_all, arm_load_store_multiple, first_address,
}

-- The state of the loop is well-formed.
record Going (size : ℕ) (t : Transfer) : Type 0 where
  core_valid : IsValid size t.core
  val_fits : t.val < 2 ^ 32

moved-lt : (b : Bool) (a moved : ℕ) → (if b then add32 a moved else sub32 a moved) < 2 ^ 32
moved-lt b a moved = ground arith

module _ (host : Host) (ins : ℕ) {size : ℕ} where
  transfer_one-Going :
      (ri : ℕ) (t : Transfer) → Going size t → Ensures (transfer_one host ins ri t) (Going size)
  unfolding transfer_one
  transfer_one-Going ri t going =
      Ensures-if (nonzero (get_bit host ins 20))
        (Ensures->>= (read_word-Word host going.core_valid t.address t.val going.val_fits) λ r fits.
          Ensures-ok (record {
            core_valid = write_register-IsValid going.core_valid ri _ (cleared-lt host ri r.1 fits);
            val_fits = cleared-lt host ri r.1 fits;
          }))
        (Ensures->>=
          (write_word-IsValid host going.core_valid t.address (Arm.read_register t.core ri))
          λ r still. Ensures-ok (record {
            core_valid = still;
            val_fits = Arm.Valid.read_register-lt going.core_valid ri;
          }))

  transfer_all-Going :
      (n ri : ℕ) (t : Transfer) → Going size t → Ensures (transfer_all host ins n ri t) (Going size)
  unfolding transfer_all
  transfer_all-Going zero ri t going = Ensures-ok going
  transfer_all-Going (suc n) ri t going =
      Ensures->>=
        (Ensures-if (in_list host ins ri) (transfer_one-Going ri t going) (Ensures-ok going))
        λ t' still. transfer_all-Going n (ri + 1) t' still

  pub arm_load_store_multiple-IsValid :
      {p : ArmCore}
      → IsValid size p
      → host.indeterminate < 2 ^ 32
      → Ensures (arm_load_store_multiple host ins p) (λ r. IsValid size r.1)
  unfolding arm_load_store_multiple
  arm_load_store_multiple-IsValid {p} valid h =
      Ensures->>= (transfer_all-Going 16 0 start (record { core_valid = valid; val_fits = h }))
        λ t going. Ensures-ok (
          IsValid-if (nonzero (get_bit host ins 21))
            (write_register-IsValid going.core_valid (get_bits host ins 19 16) _ (
              moved-lt (nonzero (get_bit host ins 23))
                (Arm.read_register p (get_bits host ins 19 16)) (t.number_of_set_bits * 4)))
            going.core_valid)
    where
      start : Transfer
      start = record {
        core = p;
        address = first_address host ins (Arm.read_register p (get_bits host ins 19 16));
        number_of_set_bits = 0;
        val = host.indeterminate;
        res = host.indeterminate;
      }
