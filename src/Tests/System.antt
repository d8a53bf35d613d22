-- ===== src/Tests/System.antt =====
-- The theorems on whole instructions and on the threads, at the small machine.
use projet_s.Common.{◌%◌, ◌^◌, ◌<◌, ◌/◌, below, below-true, ◌==◌, true, ℕ, ◌≡◌, refl, arith}
use projet_s.Outcome.{ok}
use projet_s.Word
use projet_s.Util
use projet_s.Util.{get_bits, get_bit}
use projet_s.Registers
use projet_s.Arm
use projet_s.Arm.{ArmCore, read_register}
use projet_s.Arm.Valid.{IsValid}
use projet_s.LoadStore.Multiple.{arm_load_store_multiple, first_address}
use projet_s.LoadStore.Multiple.Addresses.{listed}
use projet_s.LoadStore.Multiple.Pair.{SameList}
use projet_s.LoadStore.Multiple.Return.{arm_load_store_multiple_return}
use projet_s.LoadStore.Multiple.Block.{IsStored, arm_load_store_multiple-IsStored}
use projet_s.Gdb.State.{GdbProtocolData, gdb_init_data}
use projet_s.Gdb.Scanner.{
  ParserData, gdb_scanner, Fits, Collected, add_character_to_error,
  add_character_to_error-Collected,
}
use projet_s.Simulator.{start}
use projet_s.Simulator.Threads.{Reachable, started, acted, irq, act, Reachable-IsValid}
use projet_s.Exception.{arm_exception}
use projet_s.Tests.Machine.{
  x86, small_file, small_file-IsWords, small_machine, small_machine-IsValid,
}

-- STMDB sp!, {r0, r1, lr}
abbrev push : ℕ
push = 0xE92D4003

first_push : first_address x86 push (read_register small_machine (get_bits x86 push 19 16)) ≡ 4
unfolding first_address get_bits get_bit Util.high_mask Word.shl Word.shr read_register Arm.ahead
    Registers.read_register Registers.register_index Registers.mode_offset Registers.get_mode
first_push = refl

push_count : listed push 16 0 ≡ 3
unfolding listed
push_count = refl

arm_load_store_multiple-IsStored_example :
    (res : ℕ) × (p' : ArmCore) × (arm_load_store_multiple x86 push small_machine ≡ ok (res, p'))
    × IsStored x86 push small_machine p'
        (first_address x86 push (read_register small_machine (get_bits x86 push 19 16)))
arm_load_store_multiple-IsStored_example =
    arm_load_store_multiple-IsStored x86 push small_machine small_machine-IsValid refl
      (omega (arith, first_push)) (omega (arith, first_push, push_count))
      (omega (arith, first_push, push_count))

abbrev leave : GdbProtocolData → GdbProtocolData
leave gdb = gdb

abbrev first_state : ParserData
first_state = gdb_scanner (gdb_init_data (start x86 small_file (λ i. 0))) (λ i. 0)

-- The state after an interrupt has arrived.
abbrev interrupted : ParserData
interrupted = record first_state {
  gdb = record first_state.gdb { arm = arm_exception first_state.gdb.arm 7 };
}

interrupted-Reachable : Reachable x86 leave interrupted
unfolding act
interrupted-Reachable =
    acted (irq 7) interrupted
      (started small_file (λ i. 0) (λ i. 0) small_file-IsWords (λ i. omega arith)) refl

Reachable-IsValid_example : IsValid 0x20000 interrupted.gdb.arm × Fits interrupted
Reachable-IsValid_example =
    Reachable-IsValid x86 leave (omega arith) (λ gdb. refl) interrupted interrupted-Reachable

-- The array of the scanner with room for one character.
abbrev almost_full : ParserData
almost_full = record { gdb = gdb_init_data small_machine; buffer = λ i. 0; len = 1023 }

add_character_to_error-Collected_example :
    (after : ParserData) × (add_character_to_error almost_full 0x3F ≡ ok after)
    × Collected almost_full 0x3F after
add_character_to_error-Collected_example =
    add_character_to_error-Collected almost_full 0x3F (omega arith)

-- LDMIA sp!, {r0, r1, lr}
abbrev pop : ℕ
pop = 0xE8BD4003

push_base : get_bits x86 push 19 16 ≡ 13
unfolding get_bits Util.high_mask Word.shl Word.shr
push_base = refl

pop_base : get_bits x86 pop 19 16 ≡ 13
unfolding get_bits Util.high_mask Word.shl Word.shr
pop_base = refl

sp_at : read_register small_machine 13 ≡ 16
unfolding read_register Arm.ahead Registers.read_register Registers.register_index
    Registers.mode_offset Registers.get_mode
sp_at = refl

same_bits : below (λ k. pop / 2 ^ k % 2 == push / 2 ^ k % 2) 16 ≡ true
same_bits = refl

same_list : SameList push pop
same_list k h =
    ground (arith, below-true (λ i. pop / 2 ^ i % 2 == push / 2 ^ i % 2) 16 k same_bits h)

arm_load_store_multiple_return_example :
    (pushed_res : ℕ) × (p1 : ArmCore) × (popped_res : ℕ) × (p2 : ArmCore) × (arm_load_store_multiple
        x86 push small_machine
      ≡ ok (pushed_res, p1))
    × (arm_load_store_multiple x86 pop p1 ≡ ok (popped_res, p2))
    × ((k : ℕ) → k < 15 → Registers.read_register p2.reg k ≡ Registers.read_register small_file k)
arm_load_store_multiple_return_example =
    arm_load_store_multiple_return x86 push pop 13
      (record { store = refl; write_back = refl; down = refl; before = refl; base = push_base })
      (record { load = refl; write_back = refl; up = refl; after = refl; base = pop_base })
      same_list (omega arith) refl small_machine small_machine-IsValid (omega (arith, sp_at))
      (omega (arith, sp_at, push_count)) (omega (arith, sp_at))
