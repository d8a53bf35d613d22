-- ===== src/Heap.antt =====
-- The blocks that memory.c, registers.c, arm_core.c and gdb_protocol.c take from the heap, and those
-- that are given back.
pub mod Balance
use projet_s.Common.{ℕ, ◌==◌, if◌then◌else◌, Bool, List, [], ◌∷◌}
use projet_s.Outcome.{Outcome, ok, fault, ◌>>=◌}

-- The addresses of the blocks in use. The address 0 is NULL.
abbrev pub Heap : Type 0
Heap = List ℕ

-- `malloc`, for the address that it answers.
abbrev pub malloc : ℕ → Heap → Heap
malloc a heap = if a == 0 then heap else a ∷ heap

-- The heap without a block, which has to be in use.
abbrev pub remove : ℕ → Heap → Outcome Heap
remove a [] = fault
remove a (b ∷ heap) =
    let rest = remove a heap in if a == b then ok heap else rest >>= λ heap. ok (b ∷ heap)

abbrev pub free : ℕ → Heap → Outcome Heap
free a heap = if a == 0 then ok heap else remove a heap

-- An access to a field of the structure at an address.
abbrev pub access : ℕ → Heap → Outcome Heap
access a heap = if a == 0 then fault else ok heap

-- Where the structure of a memory and its array stand.
pub record MemoryBlocks : Type 0 where
  pub mem : ℕ
  pub m : ℕ

-- Where the structure of a processor and its registers stand.
pub record ArmBlocks : Type 0 where
  pub p : ℕ
  pub reg : ℕ

-- `mem_at` and `m_at` are the answers of the two calls of `malloc`.
unfoldable pub memory_create : ℕ → ℕ → Heap → Outcome (MemoryBlocks × Heap)
memory_create mem_at m_at heap = do
  let heap = malloc mem_at heap
  let heap = malloc m_at heap
  heap ← access mem_at heap
  ok (record { mem = mem_at; m = m_at }, heap)

unfoldable pub memory_destroy : MemoryBlocks → Heap → Outcome Heap
memory_destroy mem heap = do heap ← access mem.mem heap; heap ← free mem.m heap; free mem.mem heap

unfoldable pub registers_create : ℕ → Heap → ℕ × Heap
registers_create r_at heap = (r_at, malloc r_at heap)

unfoldable pub registers_destroy : ℕ → Heap → Outcome Heap
registers_destroy r heap = free r heap

-- The reset writes the registers. Without a structure there are none, and the address is 0.
unfoldable pub arm_create : ℕ → ℕ → Heap → Outcome (ArmBlocks × Heap)
unfolding registers_create
arm_create p_at reg_at heap =
    let heap = malloc p_at heap in
    if p_at == 0
    then ok (record { p = 0; reg = 0 }, heap)
    else (let (reg, heap) = registers_create reg_at heap in
        do heap ← access reg heap; ok (record { p = p_at; reg = reg }, heap))

unfoldable pub arm_destroy : ArmBlocks → Heap → Outcome Heap
unfolding registers_destroy
arm_destroy arm heap = do
  heap ← access arm.p heap
  heap ← registers_destroy arm.reg heap
  free arm.p heap

-- The structure of a connection. The program has no function that frees it.
unfoldable pub gdb_init_data : ℕ → Heap → ℕ × Heap
gdb_init_data gdb_at heap = (gdb_at, malloc gdb_at heap)

-- `used` is whether the input makes the scanner call a function of gdb_protocol.c, all of which access
-- the structure.
unfoldable pub gdb_scanner : ℕ → Bool → Heap → Outcome Heap
unfolding gdb_init_data
gdb_scanner gdb_at used heap =
    let (gdb, heap) = gdb_init_data gdb_at heap in if used then access gdb heap else ok heap

-- The calls of `main` in arm_simulator.c and of the debugger's thread that it joins, for the answers
-- of `malloc` in their order, and whether the debugger sends what makes the scanner use its connection.
unfoldable pub main : ℕ → ℕ → ℕ → ℕ → ℕ → Bool → Heap → Outcome Heap
unfolding memory_create arm_create arm_destroy memory_destroy gdb_scanner
main mem_at m_at p_at reg_at gdb_at used heap = do
  (mem, heap) ← memory_create mem_at m_at heap
  (arm, heap) ← arm_create p_at reg_at heap
  heap ← gdb_scanner gdb_at used heap
  heap ← arm_destroy arm heap
  memory_destroy mem heap
