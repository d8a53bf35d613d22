-- ===== src/Gdb/Scanner.antt =====
-- scanner.l, on the tokens that the scanner generated from its patterns finds: the characters + and
-- -, a packet from $ to the two digits after #, another character, or the end of the input.
use projet_s.Common.{
  ◌≡◌, refl, arith, both_ways, true, ℕ, ◌+◌, ◌-◌, ◌<◌, ltb, if◌then◌else◌, List, [], ◌∷◌, ◌++◌,
}
use projet_s.Outcome.{Outcome, ok, fault, ◌>>=◌}
use projet_s.Memory.{update}
use projet_s.Gdb.State.{GdbProtocolData, write, gdb_require_retransmission, gdb_transmit_packet}
use projet_s.Gdb.Packet.{Handler}

abbrev pub max_error_size : ℕ
max_error_size = 1024

pub record ParserData : Type 0 where
  pub gdb : GdbProtocolData
  pub buffer : ℕ → ℕ
  pub len : ℕ

-- buffer[i] = c, which C gives no meaning past the array.
abbrev put : ParserData → ℕ → ℕ → Outcome ParserData
put parser i c =
    if ltb i max_error_size then ok (record parser { buffer = update parser.buffer i c }) else fault

-- What was collected is dropped, and the packet is required again.
unfoldable pub handle_error : ParserData → Outcome ParserData
handle_error parser =
    if ltb 0 parser.len
    then (do
      parser ← put parser parser.len 0
      ok (record parser { gdb = gdb_require_retransmission parser.gdb; len = 0 }))
    else ok parser

unfoldable pub add_character_to_error : ParserData → ℕ → Outcome ParserData
unfolding handle_error
add_character_to_error parser c = do
  parser ← (if ltb (max_error_size - 2) parser.len then handle_error parser else ok parser)
  parser ← put parser parser.len c
  ok (record parser { len = parser.len + 1 })

pub data Token : Type 0 where
  plus : Token
  minus : Token
  packet : List ℕ → Token
  other : ℕ → Token
  end : Token

-- The action of a pattern, with `gdb_packet_analysis` for the packets.
unfoldable pub scan : Handler → ParserData → Token → Outcome ParserData
unfolding handle_error add_character_to_error
scan analysis parser plus = handle_error parser
scan analysis parser minus = do
  parser ← handle_error parser
  ok (record parser { gdb = gdb_transmit_packet parser.gdb })
scan analysis parser (packet text) = do
  parser ← handle_error parser
  gdb ← analysis parser.gdb text
  ok (record parser { gdb = gdb })
scan analysis parser (other c) = add_character_to_error parser c
scan analysis parser end = handle_error parser

-- The tokens up to the end of the input, with `gdb_packet_analysis` for the packets.
unfoldable pub yylex : Handler → ParserData → List Token → Outcome ParserData
unfolding scan
yylex analysis parser [] = ok parser
yylex analysis parser (token ∷ tokens) = do
  parser ← scan analysis parser token
  yylex analysis parser tokens

-- The data of `gdb_scanner` before the first token; `buffer` is what the stack holds.
unfoldable pub gdb_scanner : GdbProtocolData → (ℕ → ℕ) → ParserData
gdb_scanner gdb buffer = record { gdb = gdb; buffer = buffer; len = 0 }

-- The place of the next character is inside the array.
abbrev pub Fits : ParserData → Type 0
Fits parser = parser.len < max_error_size

-- The state after a character was collected. Room for a character and the final 0 is left, or the
-- error is reported and the character is the first of the next.
pub record Collected (parser : ParserData) (c : ℕ) (after : ParserData) : Type 0 where
  pub fits : Fits after
  pub same_arm : after.gdb.arm ≡ parser.gdb.arm
  last : after.buffer (after.len - 1) ≡ c
  kept : (i : ℕ) → i < after.len - 1 → after.buffer i ≡ parser.buffer i
  appended : parser.len < 1023 → (after.len ≡ parser.len + 1) × (after.gdb ≡ parser.gdb)
  reported : parser.len ≡ 1023 → (after.len ≡ 1) × (after.gdb.sent ≡ parser.gdb.sent ++ 0x2D ∷ [])

pub handle_error-empty :
    (parser : ParserData)
    → Fits parser
    → (after : ParserData) × (handle_error parser ≡ ok after)
      × (after.len ≡ 0)
      × (0 < parser.len → after.gdb.sent ≡ parser.gdb.sent ++ 0x2D ∷ [])
      × (after.gdb.arm ≡ parser.gdb.arm)
unfolding handle_error gdb_require_retransmission write
handle_error-empty parser fits =
    both_ways (ltb 0 parser.len)
      (λ some_left.
        let inside : ltb parser.len max_error_size ≡ true = ground arith in
        (
          record parser {
            buffer = update parser.buffer parser.len 0;
            gdb = gdb_require_retransmission parser.gdb;
            len = 0;
          },
          rw (some_left, inside) refl,
          refl,
          λ h. refl,
          refl,
        ))
      λ none_left. (parser, rw none_left refl, ground arith, λ h. ground arith, refl)

-- With room in the array, another character is stored behind those that were collected, or, when
-- the array has no room for a 0 behind it, as the first one, after - has been sent for the error.
-- There is room again, and the processor stays as it was.
pub add_character_to_error-Collected :
    (parser : ParserData) (c : ℕ)
    → Fits parser
    → (after : ParserData) × (add_character_to_error parser c ≡ ok after) × Collected parser c after
unfolding add_character_to_error
add_character_to_error-Collected parser c fits =
    both_ways (ltb (max_error_size - 2) parser.len)
      (λ full.
        let (emptied, done, none_left, sent, same) = handle_error-empty parser fits in
        let inside : ltb emptied.len max_error_size ≡ true = ground arith in
        (
          record emptied { buffer = update emptied.buffer emptied.len c; len = emptied.len + 1 },
          rw (full, done, inside) refl,
          record {
            fits = omega arith;
            same_arm = same;
            last = ground (arith, none_left);
            kept = λ i h. ground (arith, none_left);
            appended = λ h. ground (arith, full);
            reported = λ h. (omega arith, sent (omega arith));
          },
        ))
      λ room.
        let inside : ltb parser.len max_error_size ≡ true = ground arith in
        (
          record parser { buffer = update parser.buffer parser.len c; len = parser.len + 1 },
          rw (room, inside) refl,
          record {
            fits = ground arith;
            same_arm = refl;
            last = ground arith;
            kept = λ i h. ground arith;
            appended = λ h. (refl, refl);
            reported = λ h. ground (arith, room);
          },
        )
