-- ===== src/MemoryTest/Compare.antt =====
-- What the comparisons of memory_test.c find.
use projet_s.Common.{ℕ, ◌≡◌, ◌<◌, ◌≤◌}
use projet_s.Memory
use projet_s.Memory.{Memory}

-- From i up to size, each byte of a is that of b at its place.
abbrev Agree : (ℕ → ℕ) → (ℕ → ℕ) → (ℕ → ℕ) → ℕ → ℕ → Type 0
Agree a b place i size = (k : ℕ) → i ≤ k → k < size → a k ≡ b (place k)
