-- ===== src/LoadStore/Multiple.antt =====
-- `arm_load_store_multiple` of arm_load_store.c. A loop over the sixteen registers is a recursion
-- on the rounds that are left.
pub mod Addresses
pub mod Valid
pub mod Store
pub mod Block
pub mod Load
pub mod Pair
pub mod Return
use projet_s.Common.{ℕ, zero, suc, ◌+◌, ◌*◌, ◌==◌, Bool, not, if◌then◌else◌, bit_and, nonzero}
use projet_s.Constants.{pc}
use projet_s.Outcome.{Outcome, ok, ◌>>=◌}
use projet_s.Word.{Host, add32, sub32, shr}
use projet_s.Util.{get_bit, get_bits}
use projet_s.Arm
use projet_s.Arm.{ArmCore}

-- The variables of the loop; `val` and `res` keep their values from round to round.
pub record Transfer : Type 0 where
  pub core : ArmCore
  pub address : ℕ
  pub number_of_set_bits : ℕ
  pub val : ℕ
  pub res : ℕ

module _ (host : Host) (ins : ℕ) where
  -- (ins >> ri) & 1
  unfoldable pub in_list : ℕ → Bool
  in_list ri = nonzero (bit_and (shr host ins ri) 1)

  -- The loop that lowers the address for each register in the list.
  unfoldable pub lower : ℕ → ℕ → ℕ → ℕ
  unfolding in_list
  lower zero ri address = address
  lower (suc n) ri address = lower n (ri + 1) (if in_list ri then sub32 address 4 else address)

  -- The load or store of one register.
  unfoldable pub transfer_one : ℕ → Transfer → Outcome Transfer
  transfer_one ri t =
      let next = record t {
        address = add32 t.address 4;
        number_of_set_bits = t.number_of_set_bits + 1;
      } in
      if nonzero (get_bit host ins 20)
      then (do
        (_, val) ← Arm.read_word host t.core t.address t.val
        let val = if ri == pc then bit_and val 0xFFFFFFFE else val
        ok (record next { core = Arm.write_register t.core ri val; val = val; res = 0 }))
      else (let val = Arm.read_register t.core ri in
          do
            (res, core) ← Arm.write_word host t.core t.address val
            ok (record next { core = core; val = val; res = res }))

  unfoldable pub transfer_all : ℕ → ℕ → Transfer → Outcome Transfer
  unfolding in_list transfer_one
  transfer_all zero ri t = ok t
  transfer_all (suc n) ri t = do
    t ← (if in_list ri then transfer_one ri t else ok t)
    transfer_all n (ri + 1) t

  -- The address of the first transfer.
  unfoldable pub first_address : ℕ → ℕ
  unfolding lower
  first_address start_address =
      let is_incr = get_bit host ins 23 in
      let is_before = get_bit host ins 24 in
      let address = if not (nonzero is_incr) then lower 16 0 start_address else start_address in
      if is_incr == is_before then add32 address 4 else address

  unfoldable pub arm_load_store_multiple : ArmCore → Outcome (ℕ × ArmCore)
  unfolding transfer_all first_address
  arm_load_store_multiple p =
      let rn = get_bits host ins 19 16 in
      let start_address = Arm.read_register p rn in
      do
        t ← transfer_all 16 0 (record {
          core = p;
          address = first_address start_address;
          number_of_set_bits = 0;
          val = host.indeterminate;
          res = host.indeterminate;
        })
        let moved = t.number_of_set_bits * 4
        let last =
            if nonzero (get_bit host ins 23)
            then add32 start_address moved
            else sub32 start_address moved
        ok (
          t.res,
          if nonzero (get_bit host ins 21) then Arm.write_register t.core rn last else t.core,
        )
