-- ===== src/LoadStore/Single.antt =====
-- Single transfers of words: what a store puts into the memory, and a load that follows it.
use projet_s.Common.{
  ℕ, ◌+◌, ◌/◌, ◌%◌, ◌^◌, ◌<◌, ◌≤◌, ◌≡◌, ◌≢◌, ◌⊎◌, refl, ◌∙◌, arith, ◌==◌, ◌&&◌, false, nonzero,
  if◌then◌else◌,
}
use projet_s.Outcome.{Outcome, ok, fault, exited, unfinished, ◌>>=◌}
use projet_s.Word.{Host, add32}
use projet_s.Util.Fields.{get_bit-eq-mod, get_bits-eq-mod}
use projet_s.Memory
use projet_s.Memory.{Memory}
use projet_s.Memory.Orders.{WordStored, write_word-WordStored}
use projet_s.Arm
use projet_s.Arm.{ArmCore}
use projet_s.Arm.Access.{write_register_frame, read_cpsr-written, read_register-written}
use projet_s.Arm.Valid.{IsValid, read_register-lt}
use projet_s.Shifter.{shifter_operand, shift_amount}
use projet_s.LoadStore.{addressing_mode, load_value, store_value, transfer, arm_load_store}

-- A word, at an address that is computed first and not written back. The bits 7 and 4, which in a
-- transfer of a word belong to the offset, are not both set.
pub record IsWordTransfer (ins : ℕ) : Type 0 where
  pub before : ins / 2 ^ 24 % 2 ≡ 1
  pub no_write_back : ins / 2 ^ 21 % 2 ≡ 0
  pub whole : ins / 2 ^ 22 % 2 ≡ 0
  pub not_half : (nonzero (ins / 2 ^ 7 % 2) && nonzero (ins / 2 ^ 4 % 2)) ≡ false

abbrev pub rd : ℕ → ℕ
rd ins = ins / 2 ^ 12 % 2 ^ 4

unchanged : (run : Outcome (ℕ × ArmCore)) → (run >>= λ r. ok (r.0, r.1)) ≡ run
unchanged (ok r) = refl
unchanged fault = refl
unchanged (exited status) = refl
unchanged unfinished = refl

module _ (host : Host) where
  -- The address of the transfer.
  abbrev pub target : ArmCore → ℕ → ℕ
  target p ins = add32 (Arm.read_register p (ins / 2 ^ 16 % 2 ^ 4)) (addressing_mode host p ins)

  -- The address depends on the registers only.
  target-memory :
      (p : ArmCore) (mem : Memory) (ins : ℕ) → target (record p { mem = mem }) ins ≡ target p ins
  unfolding addressing_mode shifter_operand shift_amount Arm.read_register Arm.read_cpsr
  target-memory p mem ins = refl

  module _ (p : ArmCore) (ins : ℕ) (word : IsWordTransfer ins) where
    store-write_word :
        ins / 2 ^ 20 % 2 ≡ 0
        → arm_load_store host p ins
          ≡ Arm.write_word host p (target p ins) (Arm.read_register p (rd ins))
    unfolding arm_load_store transfer store_value
    store-write_word store =
        rw
          (
            get_bits-eq-mod host ins 19 16 (omega arith) (omega arith),
            get_bits-eq-mod host ins 15 12 (omega arith) (omega arith),
            get_bit-eq-mod host ins 24 (omega arith),
            word.before,
            get_bit-eq-mod host ins 21 (omega arith),
            word.no_write_back,
            get_bit-eq-mod host ins 20 (omega arith),
            store,
            get_bit-eq-mod host ins 7 (omega arith),
            get_bit-eq-mod host ins 4 (omega arith),
            word.not_half,
            get_bit-eq-mod host ins 22 (omega arith),
            word.whole,
          )
          (unchanged _)

    load-read_word :
        ins / 2 ^ 20 % 2 ≡ 1
        → rd ins ≢ 15
        → {v : ℕ} → Memory.read_word host p.mem (target p ins) host.indeterminate ≡ ok (0, v)
        → arm_load_store host p ins ≡ ok (0, Arm.write_register p (rd ins) v)
    unfolding arm_load_store transfer load_value Arm.read_word
    load-read_word load other e =
        rw
          (
            get_bits-eq-mod host ins 19 16 (omega arith) (omega arith),
            get_bit-eq-mod host ins 24 (omega arith),
            word.before,
            e,
            get_bits-eq-mod host ins 15 12 (omega arith) (omega arith),
            get_bit-eq-mod host ins 21 (omega arith),
            word.no_write_back,
            get_bit-eq-mod host ins 20 (omega arith),
            load,
            get_bit-eq-mod host ins 7 (omega arith),
            get_bit-eq-mod host ins 4 (omega arith),
            word.not_half,
            get_bit-eq-mod host ins 22 (omega arith),
            word.whole,
            not_pc,
          )
          refl
      where
        not_pc : (rd ins == 15) ≡ false
        not_pc = ground arith

  -- The state after a store and a load at the same address: Rd of the load holds what Rd of the
  -- store held, and all else is as it was.
  pub record Copied (p : ArmCore) (a from to : ℕ) (p' : ArmCore) : Type 0 where
    pub copied : Arm.read_register p' (rd to) ≡ Arm.read_register p (rd from)
    pub others : (i : ℕ) → i < 16 → i ≢ rd to → Arm.read_register p' i ≡ Arm.read_register p i
    pub status : Arm.read_cpsr p' ≡ Arm.read_cpsr p
    pub stored :
        (old : ℕ) → Memory.read_word host p'.mem a old ≡ ok (0, Arm.read_register p (rd from))
    pub elsewhere :
        (b old : ℕ)
        → b + 3 < 2 ^ 32
        → (a + 4 ≤ b) ⊎ (b + 4 ≤ a)
        → Memory.read_word host p'.mem b old ≡ Memory.read_word host p.mem b old

  module _ {size : ℕ} (p : ArmCore) (valid : IsValid size p) (from to : ℕ)
      (from_word : IsWordTransfer from) (to_word : IsWordTransfer to) where
    memory_only :
        (mem : Memory) (i : ℕ)
        → Arm.read_register (record p { mem = mem }) i ≡ Arm.read_register p i
    unfolding Arm.read_register
    memory_only mem i = refl

    status_only : (mem : Memory) → Arm.read_cpsr (record p { mem = mem }) ≡ Arm.read_cpsr p
    unfolding Arm.read_cpsr
    status_only mem = refl

    -- The state after the load, if the memory is `mem` after the store.
    abbrev loaded : Memory → ArmCore
    loaded mem = Arm.write_register (record p { mem = mem }) (rd to) (Arm.read_register p (rd from))

    module _ (a : ℕ) (at_a : target p from ≡ a) (same : target p to ≡ a)
        (store : from / 2 ^ 20 % 2 ≡ 0) (load : to / 2 ^ 20 % 2 ≡ 1) (other : rd to ≢ 15)
        (mem : Memory) (word : WordStored host p.mem a (Arm.read_register p (rd from)) mem) where
      both_steps :
          (arm_load_store host p from >>= λ r. arm_load_store host r.1 to) ≡ ok (0, loaded mem)
      unfolding Arm.write_word
      both_steps =
          rw (store-write_word p from from_word store, at_a, word.accepted)
            (load-read_word (record p { mem = mem }) to to_word load other
              (rw (target-memory p mem to, same) (word.stored host.indeterminate)))

      own :
          (if rd to == rd to
            then Arm.ahead (rd to) (Arm.read_register p (rd from))
            else Arm.read_register (record p { mem = mem }) (rd to))
          ≡ Arm.read_register p (rd from)
      unfolding Arm.ahead
      own = ground (arith, other)

      loaded-Copied : Copied p a from to (loaded mem)
      loaded-Copied = record {
        copied =
            read_register-written (record p { mem = mem }) (rd to) (rd to)
              (Arm.read_register p (rd from)) (omega arith) (omega arith)
            ∙ own;
        others = λ i small ne.
            read_register-written (record p { mem = mem }) (rd to) i (Arm.read_register p (rd from))
              (omega arith) small
            ∙ ground (arith, memory_only mem i);
        status =
            read_cpsr-written (record p { mem = mem }) (rd to) (Arm.read_register p (rd from))
              (omega arith)
            ∙ status_only mem;
        stored = λ old.
            rw
              (write_register_frame (record p { mem = mem }) (rd to)
                (Arm.read_register p (rd from))).0
              (word.stored old);
        elsewhere = λ b old low apart.
            rw
              (write_register_frame (record p { mem = mem }) (rd to)
                (Arm.read_register p (rd from))).0
              (word.elsewhere b old low apart);
      }

    -- Of two instructions that transfer a word, move the address before the transfer, do not write
    -- it back and do not have both of the bits 7 and 4, the first stores a register at an aligned
    -- address inside the memory, and the second, which names the same address, loads the word: its
    -- register, which is not the program counter, gets it, and no other register, status word or
    -- word of the memory changes.
    pub arm_load_store-Copied :
        (a : ℕ)
        → target p from ≡ a
        → target p to ≡ a
        → from / 2 ^ 20 % 2 ≡ 0
        → to / 2 ^ 20 % 2 ≡ 1
        → rd to ≢ 15
        → a % 4 ≡ 0
        → a + 3 < p.mem.size
        → (p' : ArmCore) × ((arm_load_store host p from >>= λ r. arm_load_store host r.1 to)
            ≡ ok (0, p'))
          × Copied p a from to p'
    arm_load_store-Copied a at_a same store load other aligned inside =
        let (mem, word) =
          write_word-WordStored host p.mem a (Arm.read_register p (rd from)) valid.bytes aligned
            inside (omega (arith, at_a)) (read_register-lt valid (rd from)) in
        (
          loaded mem,
          both_steps a at_a same store load other mem word,
          loaded-Copied a at_a same store load other mem word,
        )
