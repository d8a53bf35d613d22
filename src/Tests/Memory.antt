-- ===== src/Tests/Memory.antt =====
-- The theorems on memory.c and memory_test.c at the small memory, and on the blocks of the heap.
use projet_s.Common.{◌≡◌, refl, arith}
use projet_s.Heap
use projet_s.Outcome.{ok}
use projet_s.Memory.{Memory, read_word}
use projet_s.Memory.Orders.{WordStored, write_word-WordStored}
use projet_s.Word.{shl}
use projet_s.Tests.Machine.{x86, memory, memory-IsBytes}

write_word-WordStored_example : (mem' : Memory) × WordStored x86 memory 8 0xDEADBEEF mem'
write_word-WordStored_example =
    write_word-WordStored x86 memory 8 0xDEADBEEF memory-IsBytes refl (omega arith) (omega arith)
      (omega arith)

read_first : read_word x86 memory 0 0 ≡ ok (0, 0xEA000002)
unfolding read_word shl
read_first = refl
