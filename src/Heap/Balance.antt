-- ===== src/Heap/Balance.antt =====
-- The blocks that are created against those that are destroyed.
use projet_s.Common.{ℕ, ◌≡◌, ◌≢◌, ◌⊎◌}
use projet_s.Heap.{Heap}

-- The block of the debugger's connection is none of the others.
abbrev pub IsApart : ℕ → ℕ → ℕ → ℕ → ℕ → Type 0
IsApart mem_at m_at p_at reg_at gdb_at =
    (gdb_at ≡ 0) ⊎ ((gdb_at ≢ mem_at) × (gdb_at ≢ m_at) × (gdb_at ≢ p_at) × (gdb_at ≢ reg_at))
