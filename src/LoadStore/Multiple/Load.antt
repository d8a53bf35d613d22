-- ===== src/LoadStore/Multiple/Load.antt =====
-- The loop of a multiple load: which register gets which word of the memory.
use projet_s.Common.{
  ℕ, zero, suc, ◌+◌, ◌*◌, ◌/◌, ◌%◌, ◌^◌, ◌<◌, ◌≤◌, ◌≡◌, ◌≢◌, refl, sym, ap, ◌∙◌, arith, ◌==◌,
  nonzero, true, false, both_ways, bit_and, if◌then◌else◌,
}
use projet_s.Constants.{pc}
use projet_s.Outcome.{ok}
use projet_s.Word.{Host, add32}
use projet_s.Util.{get_bit}
use projet_s.Util.Fields.{get_bit-eq-mod}
use projet_s.Memory
use projet_s.Memory.{Memory}
use projet_s.Memory.Words.{IsBytes, word_at}
use projet_s.Memory.Access.{read_word_lem}
use projet_s.Registers
use projet_s.Registers.{Registers}
use projet_s.Registers.Access.{read_register-write_register}
use projet_s.Arm
use projet_s.Arm.{ArmCore}
use projet_s.LoadStore.Multiple.{Transfer, transfer_one, transfer_all}
use projet_s.LoadStore.Multiple.Addresses.{listed, in_list-eq-mod}
use projet_s.LoadStore.Multiple.Store.{IsListed}

-- What a register gets for a word: bit 0 of the program counter is cleared.
abbrev pub cleared : ℕ → ℕ → ℕ
cleared ri w = if ri == pc then bit_and w 0xFFFFFFFE else w

-- The n registers from ri on have been loaded: those in the list have the words that stand one
-- after the other, in their order, and the others are as they were.
pub record Loaded (ins n ri : ℕ) (t t' : Transfer) : Type 0 where
  pub memory : t'.core.mem ≡ t.core.mem
  pub count : t'.number_of_set_bits ≡ t.number_of_set_bits + listed ins n ri
  pub loaded :
      (k : ℕ)
      → k < n
      → IsListed ins (ri + k)
      → Registers.read_register t'.core.reg (ri + k)
        ≡ cleared (ri + k) (word_at t.core.mem (t.address + 4 * listed ins k ri))
  pub kept :
      (j : ℕ)
      → j < 16
      → ((k : ℕ) → k < n → IsListed ins (ri + k) → j ≢ ri + k)
      → Registers.read_register t'.core.reg j ≡ Registers.read_register t.core.reg j

-- The transfer after one register has been loaded.
abbrev after_one : ℕ → Transfer → Transfer
after_one ri t = record {
  core = Arm.write_register t.core ri (cleared ri (word_at t.core.mem t.address));
  address = t.address + 4;
  number_of_set_bits = t.number_of_set_bits + 1;
  val = cleared ri (word_at t.core.mem t.address);
  res = 0;
}

-- A register that holds a word of the memory, under another description of both.
moved :
    (r : Registers) (mem : Memory) {i j a b : ℕ}
    → i ≡ j
    → a ≡ b
    → Registers.read_register r j ≡ cleared j (word_at mem b)
    → Registers.read_register r i ≡ cleared i (word_at mem a)
moved r mem {i} {b} p q h =
    ap (Registers.read_register r) p
    ∙ h
    ∙ ap (λ x. cleared x (word_at mem b)) (sym p)
    ∙ ap (λ x. cleared i (word_at mem x)) (sym q)

next_in : (ins ri k : ℕ) → IsListed ins (ri + 1 + k) → IsListed ins (ri + suc k)
next_in ins ri k l =
    let index : ri + suc k ≡ ri + 1 + k = omega arith in ap (λ i. ins / 2 ^ i % 2) index ∙ l

later_in : (ins ri k : ℕ) → IsListed ins (ri + suc k) → IsListed ins (ri + 1 + k)
later_in ins ri k l =
    let index : ri + 1 + k ≡ ri + suc k = omega arith in ap (λ i. ins / 2 ^ i % 2) index ∙ l

mem-after : (p : ArmCore) (i v : ℕ) → (Arm.write_register p i v).mem ≡ p.mem
unfolding Arm.write_register
mem-after p i v = refl

reg-after :
    (p : ArmCore) (i j v : ℕ)
    → i < 16
    → j < 16
    → Registers.read_register (Arm.write_register p i v).reg j
      ≡ (if i == j then v else Registers.read_register p.reg j)
unfolding Arm.write_register
reg-after p i j v h k = read_register-write_register p.reg i j v h k

module _ (host : Host) (ins : ℕ) (load : ins / 2 ^ 20 % 2 ≡ 1) where
  transfer_one-after :
      (ri : ℕ) (t : Transfer)
      → IsBytes t.core.mem
      → t.address + 4 ≤ t.core.mem.size
      → t.address + 4 < 2 ^ 32
      → transfer_one host ins ri t ≡ ok (after_one ri t)
  unfolding transfer_one Arm.read_word
  transfer_one-after ri t bytes inside fits = rw (is_load, done, next) refl
    where
      is_load : get_bit host ins 20 ≡ 1
      is_load = get_bit-eq-mod host ins 20 (omega arith) ∙ load

      next : add32 t.address 4 ≡ t.address + 4
      next = omega arith

      done : Memory.read_word host t.core.mem t.address t.val ≡ ok (0, word_at t.core.mem t.address)
      done = ground (arith, read_word_lem host t.core.mem t.address t.val bytes (omega arith))

  skipped :
      (n ri : ℕ) (t t' : Transfer)
      → ins / 2 ^ ri % 2 ≡ 0
      → Loaded ins n (ri + 1) t t'
      → Loaded ins (suc n) ri t t'
  unfolding listed
  skipped n ri t t' not_in rest = record {
    memory = rest.memory;
    count = omega (arith, rest.count);
    loaded = loaded;
    kept = λ j h others. rest.kept j h λ k a l e.
        let index : j ≡ ri + suc k = omega arith in
        others (suc k) (omega arith) (next_in ins ri k l) index;
  }
    where
      loaded :
          (k : ℕ)
          → k < suc n
          → IsListed ins (ri + k)
          → Registers.read_register t'.core.reg (ri + k)
            ≡ cleared (ri + k) (word_at t.core.mem (t.address + 4 * listed ins k ri))
      loaded zero h l =
          let same : ri + 0 ≡ ri = omega arith in
          let bit : ins / 2 ^ ri % 2 ≡ 1 = ap (λ i. ins / 2 ^ i % 2) (sym same) ∙ l in ground arith
      loaded (suc k) h l =
          let index : ri + suc k ≡ ri + 1 + k = omega arith in
          moved t'.core.reg t.core.mem index (omega arith)
            (rest.loaded k (omega arith) (later_in ins ri k l))

  taken :
      (n ri : ℕ) (t t' : Transfer)
      → ri < 16
      → ins / 2 ^ ri % 2 ≡ 1
      → Loaded ins n (ri + 1) (after_one ri t) t'
      → Loaded ins (suc n) ri t t'
  unfolding listed
  taken n ri t t' small is_in rest = record {
    memory = rest.memory ∙ mem-after t.core ri _;
    count = omega (arith, rest.count);
    loaded = loaded;
    kept = λ j h others.
        let same : ri + 0 ≡ ri = omega arith in
        let apart : j ≢ ri + 0 = others 0 (omega arith) (ap (λ i. ins / 2 ^ i % 2) same ∙ is_in) in
        let other : (ri == j) ≡ false = ground arith in
        rest.kept j h (λ k a l e.
          let index : j ≡ ri + suc k = omega arith in
          others (suc k) (omega arith) (next_in ins ri k l) index)
        ∙ reg-after t.core ri j _ small h
        ∙ rw other refl;
  }
    where
      loaded :
          (k : ℕ)
          → k < suc n
          → IsListed ins (ri + k)
          → Registers.read_register t'.core.reg (ri + k)
            ≡ cleared (ri + k) (word_at t.core.mem (t.address + 4 * listed ins k ri))
      loaded zero h l =
          let same : ri + 0 ≡ ri = omega arith in
          let here : (ri == ri) ≡ true = ground arith in
          moved t'.core.reg t.core.mem {b = t.address} same (omega arith) (
            rest.kept ri small (λ k a l e. omega arith)
            ∙ reg-after t.core ri ri _ small small
            ∙ rw here refl)
      loaded (suc k) h l =
          let index : ri + suc k ≡ ri + 1 + k = omega arith in
          moved t'.core.reg t.core.mem index (omega arith) (
            rest.loaded k (omega arith) (later_in ins ri k l)
            ∙ ap (λ m. cleared (ri + 1 + k) (word_at m (t.address + 4 + 4 * listed ins k (ri + 1))))
                (mem-after t.core ri _))

  -- The places that the rest of the loop needs are inside the memory.
  pub record Room (n ri : ℕ) (t : Transfer) : Type 0 where
    pub inside : t.address + 4 * listed ins n ri ≤ t.core.mem.size
    pub below : t.address + 4 * listed ins n ri < 2 ^ 32
    pub bytes : IsBytes t.core.mem

  left_over :
      (n ri : ℕ) (t : Transfer)
      → ins / 2 ^ ri % 2 ≡ 1
      → Room (suc n) ri t
      → Room n (ri + 1) (after_one ri t)
  unfolding listed Arm.write_register
  left_over n ri t is_in room = record {
    inside = omega (arith, room.inside);
    below = omega (arith, room.below);
    bytes = room.bytes;
  }

  -- From an address with room for the block inside the memory, the loop of a load succeeds. The
  -- registers in the list get the words from there on, in their order, and the other registers
  -- and the memory stay as they were.
  pub transfer_all-Loaded :
      (n ri : ℕ) (t : Transfer)
      → ri + n ≤ 16
      → Room n ri t
      → (t' : Transfer) × (transfer_all host ins n ri t ≡ ok t') × Loaded ins n ri t t'
  unfolding transfer_all listed
  transfer_all-Loaded zero ri t h room = (
    t,
    refl,
    record {
      memory = refl;
      count = omega arith;
      loaded = λ k a l. ground arith;
      kept = λ j a others. refl;
    },
  )
  transfer_all-Loaded (suc n) ri t h room =
      both_ways (nonzero (ins / 2 ^ ri % 2))
        (λ is_in.
          let listed_here : ins / 2 ^ ri % 2 ≡ 1 = ground arith in
          let (t', done, rest) =
            transfer_all-Loaded n (ri + 1) (after_one ri t) (omega arith)
              (left_over n ri t listed_here room) in
          (
            t',
            rw
                (
                  in_list-eq-mod host ins ri (omega arith),
                  is_in,
                  transfer_one-after ri t room.bytes (omega (arith, room.inside))
                      (omega (arith, room.below)),
                  done,
                )
                refl,
            taken n ri t t' (omega arith) listed_here rest,
          ))
        λ not_in.
          let absent : ins / 2 ^ ri % 2 ≡ 0 = ground arith in
          let (t', done, rest) = transfer_all-Loaded n (ri + 1) t (omega arith) (record {
            inside = omega (arith, room.inside);
            below = omega (arith, room.below);
            bytes = room.bytes;
          }) in
          (
            t',
            rw (in_list-eq-mod host ins ri (omega arith), not_in, done) refl,
            skipped n ri t t' absent rest,
          )
