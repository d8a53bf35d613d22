-- ===== src/Gdb/Packet.antt =====
-- `gdb_packet_analysis`, for a table of handlers, and the packets that it accepts.
use projet_s.Common.{
  ◌/◌, ℕ, suc, ◌+◌, ◌-◌, ◌%◌, ◌^◌, ◌<◌, ◌==◌, ◌≡◌, ◌∙◌, ap, arith, length, take, drop, length-++,
  take-++, drop-++_add, if◌then◌else◌, List, [], ◌∷◌, Option, none, some,
}
use projet_s.Outcome.{Outcome, ok}
use projet_s.Word.{Host}
use projet_s.Gdb.Hex.{digit_value, scan_digits, print_byte, digit_value-hex_digit}
use projet_s.Gdb.State.{
  GdbProtocolData, gdb_send_ack, gdb_require_retransmission, gdb_send_data, add_all, frame,
}

-- sscanf(cs, "%x", &value): the digits at the start.
unfoldable pub scan_number : List ℕ → ℕ → ℕ
unfolding digit_value scan_digits
scan_number [] value = value
scan_number (c ∷ cs) value = elim (digit_value c) [
  | some d ↦ scan_digits (length cs) cs d % 2 ^ 32
  | none ↦ value
]

abbrev pub Handler : Type 0
Handler = GdbProtocolData → List ℕ → Outcome GdbProtocolData

module _ (host : Host) (handler : ℕ → Option Handler) where
  -- The handler of the first character, which gets the others. Without one the answer is empty.
  unfoldable pub handle : GdbProtocolData → List ℕ → Outcome GdbProtocolData
  handle gdb [] = elim (handler 0) [ some h ↦ h gdb [] | none ↦ gdb_send_data gdb [] ]
  handle gdb (c ∷ cs) = elim (handler c) [ some h ↦ h gdb cs | none ↦ gdb_send_data gdb [] ]

  -- The text is what lies between the first character and the last three.
  unfoldable pub gdb_packet_analysis : Handler
  unfolding handle
  gdb_packet_analysis gdb packet =
      let n = length packet - 4 in
      let text = take n (drop 1 packet) in
      let given = scan_number (drop (n + 2) packet) host.indeterminate in
      if add_all text 0 == given
      then handle (gdb_send_ack gdb) text
      else ok (gdb_require_retransmission gdb)

add_all-lt : (cs : List ℕ) (check : ℕ) → check < 2 ^ 8 → add_all cs check < 2 ^ 8
unfolding add_all
add_all-lt [] check h = h
add_all-lt (c ∷ cs) check h = add_all-lt cs ((check + c) % 2 ^ 8) (omega arith)

scan_number-print_byte : (b old : ℕ) → b < 2 ^ 8 → scan_number (print_byte b) old ≡ b
unfolding scan_number print_byte scan_digits
scan_number-print_byte b old h =
    rw
      (
        digit_value-hex_digit (b / 16 % 16) (omega arith),
        scan_number,
        digit_value-hex_digit (b % 16) (omega arith),
        scan_digits,
      )
      (omega arith)

length-frame : (text : List ℕ) → length (frame text) ≡ length text + 4
unfolding frame print_byte
length-frame text = omega (arith, length-++ text (0x23 ∷ print_byte (add_all text 0)))

module _ (host : Host) (handler : ℕ → Option Handler) (gdb : GdbProtocolData) (text : List ℕ) where
  text_of_frame : take (length text) (drop 1 (frame text)) ≡ text
  unfolding frame
  text_of_frame = take-++ text (0x23 ∷ print_byte (add_all text 0))

  sum_of_frame : drop (length text + 2) (frame text) ≡ print_byte (add_all text 0)
  unfolding frame
  sum_of_frame =
      ap (λ n. drop n (frame text)) one_more
      ∙ drop-++_add 1 text (0x23 ∷ print_byte (add_all text 0))
    where
      one_more : length text + 2 ≡ suc (length text + 1)
      one_more = omega arith

  -- A packet that was framed for sending is acknowledged, and its text is handled.
  pub gdb_packet_analysis-frame :
      gdb_packet_analysis host handler gdb (frame text)
      ≡ handle host handler (gdb_send_ack gdb) text
  unfolding gdb_packet_analysis
  gdb_packet_analysis-frame =
      rw
        (
          length-frame text,
          size,
          text_of_frame,
          sum_of_frame,
          scan_number-print_byte (add_all text 0) host.indeterminate
              (add_all-lt text 0 (omega arith)),
        )
        (ground arith)
    where
      size : length text + 4 - 4 ≡ length text
      size = omega arith
