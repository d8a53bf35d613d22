-- ===== src/Gdb/Uint32.antt =====
-- `read_uint32` and `write_uint32`: words as eight hexadecimal digits in the byte order of the target.
use projet_s.Common.{
  Bool, to_bit, both_ways, ap, ◌∙◌, ℕ, zero, suc, ◌-◌, ◌*◌, ◌/◌, ◌%◌, ◌^◌, ◌<◌, ◌≡◌, refl, arith,
  ◌==◌, if◌then◌else◌, List, [], ◌∷◌, Bool, true, false, to_bit, both_ways, ap, ◌++◌,
}
use projet_s.Word.{Host, u8, add32, all_ones}
use projet_s.Word.Bytes.{word_of_bytes}
use projet_s.Memory.{update}
use projet_s.Util.{is_big_endian}
use projet_s.Gdb.Hex.{print_byte, scan_byte, scan_byte-print_byte}

-- data += 2
abbrev skip_two : List ℕ → List ℕ
skip_two [] = []
skip_two (c ∷ []) = []
skip_two (c ∷ d ∷ cs) = cs

-- The array of the union, `mem.bytes`, for its `mem.integer`, and back.
module _ (host : Host) where
  unfoldable pub bytes_of : ℕ → ℕ → ℕ
  bytes_of integer i =
      if host.big_endian then integer / 2 ^ (8 * (3 - i)) % 2 ^ 8 else integer / 2 ^ (8 * i) % 2 ^ 8

  unfoldable pub integer_of : (ℕ → ℕ) → ℕ
  integer_of bytes =
      if host.big_endian
      then word_of_bytes (bytes 0) (bytes 1) (bytes 2) (bytes 3)
      else word_of_bytes (bytes 3) (bytes 2) (bytes 1) (bytes 0)

  unfoldable pub target_big_endian : ℕ
  target_big_endian = to_bit host.big_endian_simulator

  -- The first index and the step, -1 as a word.
  unfoldable pub first_byte : ℕ × ℕ
  unfolding is_big_endian target_big_endian
  first_byte = if is_big_endian host == target_big_endian then (0, 1) else (3, all_ones)

  -- The loop; `i` leaves the range after four rounds.
  unfoldable pub read_bytes : ℕ → ℕ → ℕ → List ℕ → (ℕ → ℕ) → ℕ → (ℕ → ℕ)
  read_bytes zero i step text bytes value = bytes
  read_bytes (suc n) i step text bytes value =
      let value = scan_byte text value in
      read_bytes n (add32 i step) step (skip_two text) (update bytes i (u8 value)) value

  unfoldable pub write_bytes : ℕ → ℕ → ℕ → ℕ → List ℕ
  unfolding bytes_of
  write_bytes zero i step integer = []
  write_bytes (suc n) i step integer =
      print_byte (bytes_of integer i) ++ write_bytes n (add32 i step) step integer

  unfoldable pub read_uint32 : List ℕ → ℕ
  unfolding first_byte read_bytes integer_of
  read_uint32 text =
      let (i, step) = first_byte in
      integer_of (read_bytes 4 i step text (bytes_of host.indeterminate) host.indeterminate)

  unfoldable pub write_uint32 : ℕ → List ℕ
  unfolding first_byte write_bytes
  write_uint32 value = let (i, step) = first_byte in write_bytes 4 i step value

-- The text of four bytes, before more text.
abbrev quad : ℕ → ℕ → ℕ → ℕ → List ℕ → List ℕ
quad b0 b1 b2 b3 cs = print_byte b0 ++ (print_byte b1 ++ (print_byte b2 ++ (print_byte b3 ++ cs)))

-- Four values in the byte order of the target, from the highest byte of a word to the lowest.
abbrev in_order {ℓ} : {A : Type ℓ} → Bool → (ℕ → ℕ → ℕ → ℕ → A) → ℕ → ℕ → ℕ → ℕ → A
in_order true f b3 b2 b1 b0 = f b3 b2 b1 b0
in_order false f b3 b2 b1 b0 = f b0 b1 b2 b3

module _ (host : Host) where
  write_uint32-quad :
      (v : ℕ) (cs : List ℕ)
      → write_uint32 host v ++ cs
        ≡ in_order host.big_endian_simulator
            (λ a b c d. quad a b c d cs)
            (v / 2 ^ 24 % 2 ^ 8)
            (v / 2 ^ 16 % 2 ^ 8)
            (v / 2 ^ 8 % 2 ^ 8)
            (v % 2 ^ 8)
  unfolding write_uint32 is_big_endian target_big_endian bytes_of print_byte
  write_uint32-quad v cs =
      both_ways host.big_endian
        (λ big.
          both_ways host.big_endian_simulator (λ s. rw (big, s, div_one) refl)
            λ s. rw (big, s, div_one) refl)
        λ big.
          both_ways host.big_endian_simulator (λ s. rw (big, s, div_one) refl)
            λ s. rw (big, s, div_one) refl
    where
      div_one : v / 1 ≡ v
      div_one = omega arith

  read_uint32-quad :
      (b0 b1 b2 b3 : ℕ) (cs : List ℕ)
      → b0 < 2 ^ 8
      → b1 < 2 ^ 8
      → b2 < 2 ^ 8
      → b3 < 2 ^ 8
      → read_uint32 host (quad b0 b1 b2 b3 cs)
        ≡ in_order host.big_endian_simulator word_of_bytes b0 b1 b2 b3
  unfolding read_uint32 is_big_endian target_big_endian print_byte
  read_uint32-quad b0 b1 b2 b3 cs h0 h1 h2 h3 =
      both_ways host.big_endian
        (λ big.
          both_ways host.big_endian_simulator
            (λ s. rw (big, s, scan0, scan1, scan2, scan3) (omega arith))
            λ s. rw (big, s, scan0, scan1, scan2, scan3) (omega arith))
        λ big.
          both_ways host.big_endian_simulator
            (λ s. rw (big, s, scan0, scan1, scan2, scan3) (omega arith))
            λ s. rw (big, s, scan0, scan1, scan2, scan3) (omega arith)
    where
      scan0 : (old : ℕ) (ds : List ℕ) → scan_byte (print_byte b0 ++ ds) old ≡ b0
      scan0 old ds = scan_byte-print_byte b0 old ds h0

      scan1 : (old : ℕ) (ds : List ℕ) → scan_byte (print_byte b1 ++ ds) old ≡ b1
      scan1 old ds = scan_byte-print_byte b1 old ds h1

      scan2 : (old : ℕ) (ds : List ℕ) → scan_byte (print_byte b2 ++ ds) old ≡ b2
      scan2 old ds = scan_byte-print_byte b2 old ds h2

      scan3 : (old : ℕ) (ds : List ℕ) → scan_byte (print_byte b3 ++ ds) old ≡ b3
      scan3 old ds = scan_byte-print_byte b3 old ds h3

  -- A word that was written in hexadecimal is read back from the text, whatever follows it and
  -- whichever byte orders the host and the target have.
  pub read_uint32-write_uint32 :
      (v : ℕ) (cs : List ℕ) → v < 2 ^ 32 → read_uint32 host (write_uint32 host v ++ cs) ≡ v
  read_uint32-write_uint32 v cs h =
      both_ways host.big_endian_simulator
        (λ s.
          ap (read_uint32 host) (write_uint32-quad v cs ∙ rw s refl)
          ∙ read_uint32-quad (v / 2 ^ 24 % 2 ^ 8) (v / 2 ^ 16 % 2 ^ 8) (v / 2 ^ 8 % 2 ^ 8)
              (v % 2 ^ 8) cs (omega arith) (omega arith) (omega arith) (omega arith)
          ∙ rw s (omega arith))
        λ s.
          ap (read_uint32 host) (write_uint32-quad v cs ∙ rw s refl)
          ∙ read_uint32-quad (v % 2 ^ 8) (v / 2 ^ 8 % 2 ^ 8) (v / 2 ^ 16 % 2 ^ 8)
              (v / 2 ^ 24 % 2 ^ 8) cs (omega arith) (omega arith) (omega arith) (omega arith)
          ∙ rw s (omega arith)
