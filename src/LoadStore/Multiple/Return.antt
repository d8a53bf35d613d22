-- ===== src/LoadStore/Multiple/Return.antt =====
-- STMDB and LDMIA with the same base register and list: what is pushed is what is popped.
use projet_s.Common.{
  ℕ, ◌+◌, ◌-◌, ◌*◌, ◌/◌, ◌%◌, ◌^◌, ◌<◌, ◌≤◌, ◌≡◌, ◌≢◌, refl, sym, ap, ◌∙◌, arith, ◌==◌, nonzero,
  false, both_ways, if◌then◌else◌,
}
use projet_s.Outcome.{ok}
use projet_s.Word.{Host, add32, sub32}
use projet_s.Util.{get_bits}
use projet_s.Memory.Words.{word_at}
use projet_s.Registers
use projet_s.Registers.{Registers}
use projet_s.Registers.Access.{read_register-write_register}
use projet_s.Arm
use projet_s.Arm.{ArmCore, ahead}
use projet_s.Arm.Valid.{IsValid, read_register-lt}
use projet_s.LoadStore.Multiple.{Transfer, first_address, arm_load_store_multiple}
use projet_s.LoadStore.Multiple.Addresses.{listed}
use projet_s.LoadStore.Multiple.Store.{IsListed}
use projet_s.LoadStore.Multiple.Load.{cleared, Loaded, transfer_all-Loaded}
use projet_s.LoadStore.Multiple.Block.{IsStored, begin, finish, arm_load_store_multiple-IsStored}
use projet_s.LoadStore.Multiple.Pair.{
  IsPush, IsPop, SameList, listed-same, read-plain, reads-plain, first_push, first_pop, reg-pop,
  pushed_base,
}

module _ (host : Host) (ins ins' rn : ℕ) (push : IsPush host ins rn)
    (pop : IsPop host ins' rn) where
  module _ (same : SameList ins ins') (small : rn < 15) (not_listed : ins / 2 ^ rn % 2 ≡ 0)
      {size : ℕ} (p : ArmCore) (valid : IsValid size p) (aligned : Arm.read_register p rn % 4 ≡ 0)
      (room : 4 * listed ins 16 0 ≤ Arm.read_register p rn)
      (inside : Arm.read_register p rn ≤ size) where
    low : ℕ
    low = Arm.read_register p rn - 4 * listed ins 16 0

    low-sum : low + 4 * listed ins 16 0 ≡ Arm.read_register p rn
    unfolding low
    low-sum = omega arith

    low-lt : low < 2 ^ 32
    low-lt = omega (arith, low-sum, read_register-lt valid rn)

    low_aligned : low % 4 ≡ 0
    low_aligned = omega (arith, low-sum, aligned)

    store_address : first_address host ins (Arm.read_register p (get_bits host ins 19 16)) ≡ low
    unfolding low
    store_address = rw push.base (
        first_push host ins ins' rn push pop (Arm.read_register p rn) (read_register-lt valid rn)
          room)

    -- The register k after the store.
    reg-push :
        (p1 : ArmCore) (k : ℕ)
        → IsStored host ins p p1 low
        → k < 16
        → Registers.read_register p1.reg k
          ≡ (if rn == k then low else Registers.read_register p.reg k)
    unfolding low
    reg-push p1 k stored h =
        ap (λ r. Registers.read_register r k)
          (pushed_base host ins ins' rn push pop p p1 low stored)
        ∙ read_register-write_register p.reg rn k _ (omega arith) h
        ∙ ap (λ v. if rn == k then v else Registers.read_register p.reg k) exact
      where
        exact : sub32 (Arm.read_register p rn) (4 * listed ins 16 0) ≡ low
        exact = omega (arith, read_register-lt valid rn)

    base_after : (p1 : ArmCore) → IsStored host ins p p1 low → Arm.read_register p1 rn ≡ low
    base_after p1 stored =
        read-plain p1 rn (omega arith) ∙ reg-push p1 rn stored (omega arith) ∙ ground arith

    -- The loop of the load starts at the block.
    load_address :
        (p1 : ArmCore)
        → IsStored host ins p p1 low
        → first_address host ins' (Arm.read_register p1 (get_bits host ins' 19 16)) ≡ low
    load_address p1 stored =
        ap (λ i. first_address host ins' (Arm.read_register p1 i)) pop.base
        ∙ ap (first_address host ins') (base_after p1 stored)
        ∙ first_pop host ins ins' rn push pop low low-lt

    -- A register of the list is loaded from where it was stored.
    popped_word :
        (p1 : ArmCore) (t : Transfer) (k : ℕ)
        → IsStored host ins p p1 low
        → Loaded ins' 16 0 (begin host ins' p1) t
        → k < 15
        → IsListed ins k
        → Registers.read_register t.core.reg k ≡ Registers.read_register p.reg k
    unfolding begin
    popped_word p1 t k stored loaded h l =
        let index : 0 + k ≡ k = omega arith in
        let l' : IsListed ins' (0 + k) =
          ap (λ i. ins' / 2 ^ i % 2) index ∙ same k (omega arith) ∙ l in
        let not_pc : (k == 15) ≡ false = ground arith in
        ap (Registers.read_register t.core.reg) (sym index)
        ∙ loaded.loaded k (omega arith) l'
        ∙ ap (λ i. cleared i (word_at p1.mem (from + 4 * listed ins' k 0))) index
        ∙ rw not_pc (
            ap (λ a. word_at p1.mem (a + 4 * listed ins' k 0)) (load_address p1 stored)
            ∙ ap (λ n. word_at p1.mem (low + 4 * n)) (listed-same ins ins' k 0 same (omega arith))
            ∙ stored.words k (omega arith) l
            ∙ reads-plain p.reg k (omega arith))
      where
        from : ℕ
        from = first_address host ins' (Arm.read_register p1 (get_bits host ins' 19 16))

    -- A register that is not the base is the same again.
    popped :
        (p1 : ArmCore) (t : Transfer) (k : ℕ)
        → IsStored host ins p p1 low
        → Loaded ins' 16 0 (begin host ins' p1) t
        → k < 15
        → rn ≢ k
        → Registers.read_register t.core.reg k ≡ Registers.read_register p.reg k
    unfolding begin
    popped p1 t k stored loaded h other =
        both_ways (nonzero (ins / 2 ^ k % 2))
          (λ is_in. popped_word p1 t k stored loaded h (ground arith))
          λ not_in.
            let absent : ins / 2 ^ k % 2 ≡ 0 = ground arith in
            let apart : (rn == k) ≡ false = ground arith in
            loaded.kept k (omega arith) (λ j a l e.
              let bit = ap (λ i. ins' / 2 ^ i % 2) e ∙ l in
              omega (arith, bit, same k (omega arith), absent))
            ∙ reg-push p1 k stored (omega arith)
            ∙ rw apart refl

    at_address :
        (p1 : ArmCore) {a b : ℕ} → a ≡ b → IsStored host ins p p1 a → IsStored host ins p p1 b
    at_address p1 e stored = rw e at stored

    pushed :
        (res : ℕ) × (p1 : ArmCore) × (arm_load_store_multiple host ins p ≡ ok (res, p1))
        × IsStored host ins p p1 low
    pushed =
        let (res, p1, done, stored) =
          arm_load_store_multiple-IsStored host ins p valid push.store
            (omega (arith, store_address, low_aligned))
            (omega (arith, store_address, low-sum, inside))
            (omega (arith, store_address, low-sum, read_register-lt valid rn)) in
        (res, p1, done, at_address p1 store_address stored)

    popped_all :
        (p1 : ArmCore)
        → IsStored host ins p p1 low
        → (t : Transfer) × (arm_load_store_multiple host ins' p1
            ≡ ok (t.res, finish host ins' p1 t))
          × Loaded ins' 16 0 (begin host ins' p1) t
    unfolding arm_load_store_multiple begin finish
    popped_all p1 stored =
        let all = listed-same ins ins' 16 0 same (omega arith) in
        let (t, done, loaded) =
          transfer_all-Loaded host ins' pop.load 16 0 (begin host ins' p1) (omega arith) (record {
            inside = omega (
              arith,
              load_address p1 stored,
              all,
              low-sum,
              inside,
              stored.same_size,
              valid.same_size,
            );
            below = omega (arith, load_address p1 stored, all, low-sum, read_register-lt valid rn);
            bytes = stored.bytes;
          }) in
        (t, rw done refl, loaded)

    base_again :
        (p1 : ArmCore) (t : Transfer)
        → IsStored host ins p p1 low
        → Loaded ins' 16 0 (begin host ins' p1) t
        → add32 (Arm.read_register p1 rn) (t.number_of_set_bits * 4)
          ≡ Registers.read_register p.reg rn
    unfolding begin
    base_again p1 t stored loaded = omega (
      arith,
      base_after p1 stored,
      loaded.count,
      listed-same ins ins' 16 0 same (omega arith),
      low-sum,
      read-plain p rn (omega arith),
      read_register-lt valid rn,
    )

    same_register :
        (p1 : ArmCore) (t : Transfer)
        → IsStored host ins p p1 low
        → Loaded ins' 16 0 (begin host ins' p1) t
        → (k : ℕ) → k < 15
        → Registers.read_register (finish host ins' p1 t).reg k ≡ Registers.read_register p.reg k
    same_register p1 t stored loaded k h =
        reg-pop host ins ins' rn push pop p1 t k (omega arith) (omega arith)
        ∙ both_ways (rn == k)
            (λ base.
              let index : rn ≡ k = ground arith in
              rw base (base_again p1 t stored loaded ∙ ap (Registers.read_register p.reg) index))
            λ other. rw other (popped p1 t k stored loaded h (ground arith))

    -- A push followed by a pop of the same list, whose base register is aligned, not in the list
    -- and in the memory, with room for the block below it, both succeed, and r0 to r14 are again
    -- what they were.
    pub arm_load_store_multiple_return :
        (pushed_res : ℕ) × (p1 : ArmCore) × (popped_res : ℕ) × (p2 : ArmCore)
        × (arm_load_store_multiple host ins p ≡ ok (pushed_res, p1))
        × (arm_load_store_multiple host ins' p1 ≡ ok (popped_res, p2))
        × ((k : ℕ) → k < 15 → Registers.read_register p2.reg k ≡ Registers.read_register p.reg k)
    arm_load_store_multiple_return =
        let (res, p1, done, stored) = pushed in
        let (t, again, loaded) = popped_all p1 stored in
        (res, p1, t.res, finish host ins' p1 t, done, again, same_register p1 t stored loaded)
