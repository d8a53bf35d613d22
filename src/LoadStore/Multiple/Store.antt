-- ===== src/LoadStore/Multiple/Store.antt =====
-- The loop of a multiple store: which word of the memory gets which register.
use projet_s.Common.{
  ℕ, zero, suc, ◌+◌, ◌*◌, ◌/◌, ◌%◌, ◌^◌, ◌<◌, ◌≤◌, ◌≡◌, ◌⊎◌, inl, refl, sym, ap, ◌∙◌, arith,
  nonzero, both_ways,
}
use projet_s.Outcome.{ok}
use projet_s.Word.{Host, add32}
use projet_s.Util.{get_bit}
use projet_s.Util.Fields.{get_bit-eq-mod}
use projet_s.Memory
use projet_s.Memory.{Memory}
use projet_s.Memory.Words.{
  IsBytes, word_at, set_word, set_word-IsBytes, word_at-set_word_self, word_at-set_word_ne,
  size-set_word,
}
use projet_s.Memory.Access.{write_word_lem}
use projet_s.Registers
use projet_s.Registers.{Registers}
use projet_s.Arm
use projet_s.Arm.{ArmCore, ahead}
use projet_s.Arm.Valid.{IsWords, ahead-lt}
use projet_s.LoadStore.Multiple.{Transfer, transfer_one, transfer_all}
use projet_s.LoadStore.Multiple.Addresses.{listed, in_list-eq-mod}

-- The registers as instructions read them.
abbrev pub reads : Registers → ℕ → ℕ
reads r i = ahead i (Registers.read_register r i)

read_register-reads : (p : ArmCore) (i : ℕ) → Arm.read_register p i ≡ reads p.reg i
unfolding Arm.read_register
read_register-reads p i = refl

reads-lt : (r : Registers) (i : ℕ) → IsWords r → reads r i < 2 ^ 32
unfolding Registers.read_register
reads-lt r i h = ahead-lt i _ (h _)

-- Whether register ri is in the list.
abbrev pub IsListed : ℕ → ℕ → Type 0
IsListed ins ri = ins / 2 ^ ri % 2 ≡ 1

-- The n registers from ri on have been stored: those in the list stand one after the other, in
-- their order, and the words apart from them are as they were.
pub record Stored (ins n ri : ℕ) (t t' : Transfer) : Type 0 where
  pub registers : t'.core.reg ≡ t.core.reg
  pub next_address : t'.address ≡ t.address + 4 * listed ins n ri
  pub count : t'.number_of_set_bits ≡ t.number_of_set_bits + listed ins n ri
  pub bytes : IsBytes t'.core.mem
  pub size : t'.core.mem.size ≡ t.core.mem.size
  pub words :
      (k : ℕ)
      → k < n
      → IsListed ins (ri + k)
      → word_at t'.core.mem (t.address + 4 * listed ins k ri) ≡ reads t.core.reg (ri + k)
  pub elsewhere :
      (b : ℕ)
      → (b + 4 ≤ t.address) ⊎ (t.address + 4 * listed ins n ri ≤ b)
      → word_at t'.core.mem b ≡ word_at t.core.mem b

-- A word of the memory that is a register, under another description of both.
moved :
    (mem : Memory) (r : Registers) {a b i j : ℕ}
    → a ≡ b
    → i ≡ j
    → word_at mem b ≡ reads r j
    → word_at mem a ≡ reads r i
moved mem r p q h = ap (word_at mem) p ∙ h ∙ ap (reads r) (sym q)

-- The transfer after one register has been stored.
abbrev after_one : ℕ → Transfer → Transfer
after_one ri t = record {
  core = record t.core { mem = set_word t.core.mem t.address (reads t.core.reg ri) };
  address = t.address + 4;
  number_of_set_bits = t.number_of_set_bits + 1;
  val = reads t.core.reg ri;
  res = 0;
}

module _ (host : Host) (ins : ℕ) (store : ins / 2 ^ 20 % 2 ≡ 0) where
  write_word-inside :
      (p : ArmCore) (a v : ℕ)
      → a % 4 ≡ 0
      → a + 3 < p.mem.size
      → a < 2 ^ 32
      → Arm.write_word host p a v ≡ ok (0, record p { mem = set_word p.mem a v })
  unfolding Arm.write_word
  write_word-inside p a v aligned inside fits = rw done refl
    where
      done : Memory.write_word host p.mem a v ≡ ok (0, set_word p.mem a v)
      done = ground (arith, write_word_lem host p.mem a v fits)

  transfer_one-after :
      (ri : ℕ) (t : Transfer)
      → t.address % 4 ≡ 0
      → t.address + 4 ≤ t.core.mem.size
      → t.address + 4 < 2 ^ 32
      → transfer_one host ins ri t ≡ ok (after_one ri t)
  unfolding transfer_one
  transfer_one-after ri t aligned inside fits =
      rw
        (
          is_store,
          read_register-reads t.core ri,
          write_word-inside t.core t.address (reads t.core.reg ri) aligned (omega arith)
              (omega arith),
          next,
        )
        refl
    where
      is_store : get_bit host ins 20 ≡ 0
      is_store = get_bit-eq-mod host ins 20 (omega arith) ∙ store

      next : add32 t.address 4 ≡ t.address + 4
      next = omega arith

  -- The places that the rest of the loop needs are inside the memory.
  pub record Room (n ri : ℕ) (t : Transfer) : Type 0 where
    pub aligned : t.address % 4 ≡ 0
    pub inside : t.address + 4 * listed ins n ri ≤ t.core.mem.size
    pub below : t.address + 4 * listed ins n ri < 2 ^ 32
    pub words : IsWords t.core.reg
    pub bytes : IsBytes t.core.mem

  skipped :
      (n ri : ℕ) (t t' : Transfer)
      → ins / 2 ^ ri % 2 ≡ 0
      → Stored ins n (ri + 1) t t'
      → Stored ins (suc n) ri t t'
  unfolding listed
  skipped n ri t t' not_in rest = record {
    registers = rest.registers;
    next_address = omega (arith, rest.next_address);
    count = omega (arith, rest.count);
    bytes = rest.bytes;
    size = rest.size;
    words = words;
    elsewhere = λ b h. rest.elsewhere b (ground arith);
  }
    where
      words :
          (k : ℕ)
          → k < suc n
          → IsListed ins (ri + k)
          → word_at t'.core.mem (t.address + 4 * listed ins k ri) ≡ reads t.core.reg (ri + k)
      words zero h l =
          let same : ri + 0 ≡ ri = omega arith in
          let bit : ins / 2 ^ ri % 2 ≡ 1 = ap (λ i. ins / 2 ^ i % 2) (sym same) ∙ l in ground arith
      words (suc k) h l =
          let index : ri + suc k ≡ ri + 1 + k = omega arith in
          moved t'.core.mem t.core.reg (omega arith) index
            (rest.words k (omega arith) (ap (λ i. ins / 2 ^ i % 2) (sym index) ∙ l))

  taken :
      (n ri : ℕ) (t t' : Transfer)
      → ins / 2 ^ ri % 2 ≡ 1
      → Room (suc n) ri t
      → Stored ins n (ri + 1) (after_one ri t) t'
      → Stored ins (suc n) ri t t'
  unfolding listed
  taken n ri t t' is_in room rest = record {
    registers = rest.registers;
    next_address = omega (arith, rest.next_address);
    count = omega (arith, rest.count);
    bytes = rest.bytes;
    size = rest.size ∙ size-set_word t.core.mem t.address _;
    words = words;
    elsewhere = λ b h.
        rest.elsewhere b (ground arith)
        ∙ word_at-set_word_ne t.core.mem t.address b _ (ground arith);
  }
    where
      words :
          (k : ℕ)
          → k < suc n
          → IsListed ins (ri + k)
          → word_at t'.core.mem (t.address + 4 * listed ins k ri) ≡ reads t.core.reg (ri + k)
      words zero h l =
          let index : ri + 0 ≡ ri = omega arith in
          moved t'.core.mem t.core.reg (omega arith) index (
            rest.elsewhere t.address (inl (omega arith))
            ∙ word_at-set_word_self t.core.mem t.address (reads t.core.reg ri)
                (reads-lt t.core.reg ri room.words))
      words (suc k) h l =
          let index : ri + suc k ≡ ri + 1 + k = omega arith in
          moved t'.core.mem t.core.reg (omega arith) index
            (rest.words k (omega arith) (ap (λ i. ins / 2 ^ i % 2) (sym index) ∙ l))

  -- From an aligned address with room for the block inside the memory, the loop of a store succeeds.
  -- The registers in the list stand one after the other from there, in their order, the address
  -- and the count have moved on by as many, and no other word has changed.
  pub transfer_all-Stored :
      (n ri : ℕ) (t : Transfer)
      → ri + n ≤ 16
      → Room n ri t
      → (t' : Transfer) × (transfer_all host ins n ri t ≡ ok t') × Stored ins n ri t t'
  unfolding transfer_all listed
  transfer_all-Stored zero ri t h room = (
    t,
    refl,
    record {
      registers = refl;
      next_address = omega arith;
      count = omega arith;
      bytes = room.bytes;
      size = refl;
      words = λ k a l. ground arith;
      elsewhere = λ b a. refl;
    },
  )
  transfer_all-Stored (suc n) ri t h room =
      both_ways (nonzero (ins / 2 ^ ri % 2))
        (λ is_in.
          let listed_here : ins / 2 ^ ri % 2 ≡ 1 = ground arith in
          let (t', done, rest) =
            transfer_all-Stored n (ri + 1) (after_one ri t) (omega arith) (record {
              aligned = omega (arith, room.aligned);
              inside =
                  omega
                    (arith, room.inside, size-set_word t.core.mem t.address (reads t.core.reg ri));
              below = omega (arith, room.below);
              words = room.words;
              bytes = set_word-IsBytes t.core.mem t.address _ room.bytes;
            }) in
          (
            t',
            rw
                (
                  in_list-eq-mod host ins ri (omega arith),
                  is_in,
                  transfer_one-after ri t room.aligned (omega (arith, room.inside))
                      (omega (arith, room.below)),
                  done,
                )
                refl,
            taken n ri t t' listed_here room rest,
          ))
        λ not_in.
          let absent : ins / 2 ^ ri % 2 ≡ 0 = ground arith in
          let (t', done, rest) = transfer_all-Stored n (ri + 1) t (omega arith) (record {
            aligned = room.aligned;
            inside = omega (arith, room.inside);
            below = omega (arith, room.below);
            words = room.words;
            bytes = room.bytes;
          }) in
          (
            t',
            rw (in_list-eq-mod host ins ri (omega arith), not_in, done) refl,
            skipped n ri t t' absent rest,
          )
