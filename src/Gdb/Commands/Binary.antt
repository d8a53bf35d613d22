-- ===== src/Gdb/Commands/Binary.antt =====
-- `write_memory_binary` and `read_memory`: bytes that the debugger writes are those that it reads.
use projet_s.Common.{
  ℕ, ◌+◌, ◌^◌, ◌<◌, ◌≡◌, arith, ◌==◌, ◌||◌, Bool, false, length, bit_xor, if◌then◌else◌, List, [],
  ◌∷◌, ◌++◌,
}
use projet_s.Outcome.{Outcome, ok, ◌>>=◌}
use projet_s.Word.{Host}
use projet_s.Memory.{Memory}
use projet_s.Memory.Words.{set_byte}
use projet_s.Gdb.Hex.{print_byte}
use projet_s.Gdb.Commands.{write_content, memory_text}

-- The characters #, $ and } are sent as } and the character with bit 5 changed.
abbrev is_special : ℕ → Bool
is_special b = b == 0x23 || b == 0x24 || b == 0x7D

pub escaped : List ℕ → List ℕ
escaped [] = []
escaped (b ∷ bs) = if is_special b then 0x7D ∷ bit_xor b 0x20 ∷ escaped bs else b ∷ escaped bs

unfoldable pub AreBytes : List ℕ → Type 0
AreBytes [] = Unit
AreBytes (b ∷ bs) = (b < 2 ^ 8) × AreBytes bs

-- The memory with the bytes from `a` on.
pub with_bytes : Memory → ℕ → List ℕ → Memory
with_bytes mem a [] = mem
with_bytes mem a (b ∷ bs) = with_bytes (set_byte mem a b) (a + 1) bs

pub hex : List ℕ → List ℕ
hex [] = []
hex (b ∷ bs) = print_byte b ++ hex bs

plain : (b : ℕ) → is_special b ≡ false → (b == 0x7D) ≡ false
plain b h = ground arith

-- The bytes from a on are those of the list.
HasBytes : Memory → ℕ → List ℕ → Type 0
HasBytes mem a [] = Unit
HasBytes mem a (b ∷ bs) = (mem.m a ≡ b) × HasBytes mem (a + 1) bs

module _ (host : Host) where
  -- The binary text of the bytes is written, and as many bytes are read back.
  pub write_then_read : List ℕ → Memory → ℕ → ℕ → Outcome (Bool × List ℕ)
  write_then_read bs mem a value = do
    (written, mem) ← write_content host mem (length bs) a (escaped bs)
    answer ← memory_text host mem (length bs) a value
    ok (written, answer)
