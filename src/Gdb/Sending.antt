-- ===== src/Gdb/Sending.antt =====
-- The answers of gdb_protocol.c leave the processor alone.
use projet_s.Common.{ℕ, ◌+◌, ◌==◌, ◌||◌, leb, length, List, [], ◌∷◌}
use projet_s.Outcome.{Outcome, Ensures, Ensures-if, Ensures-ok}
use projet_s.Arm.Valid.{IsValid}
use projet_s.Gdb.State.{
  GdbProtocolData, gdb_send_ack, gdb_require_retransmission, gdb_send_buffer, gdb_send_data,
  gdb_send_stop_reason,
}
use projet_s.Constants.{undefined_instruction, prefetch_abort, data_abort}
use projet_s.Gdb.Commands.Continue.{run}

module _ (size : ℕ) where
  -- If the run ends with a value, its processor is well-formed.
  abbrev pub Keeps : Outcome GdbProtocolData → Type 0
  Keeps run = Ensures run (λ gdb. IsValid size gdb.arm)

  module _ (gdb : GdbProtocolData) (valid : IsValid size gdb.arm) where
    pub gdb_send_buffer-IsValid : (text : List ℕ) → Keeps (gdb_send_buffer gdb text)
    unfolding gdb_send_buffer
    gdb_send_buffer-IsValid text =
        Ensures-if (leb (length text + 5) 1024) (Ensures-ok valid) (record { holds = tt })

    pub gdb_send_data-IsValid : (text : List ℕ) → Keeps (gdb_send_data gdb text)
    unfolding gdb_send_data
    gdb_send_data-IsValid text = gdb_send_buffer-IsValid text

    pub gdb_send_stop_reason-IsValid : Keeps (gdb_send_stop_reason gdb)
    unfolding gdb_send_stop_reason
    gdb_send_stop_reason-IsValid =
        Ensures-if (gdb.target_exception == undefined_instruction)
          (gdb_send_data-IsValid (0x53 ∷ 0x30 ∷ 0x34 ∷ []))
          (Ensures-if (gdb.target_exception == prefetch_abort || gdb.target_exception == data_abort)
            (gdb_send_data-IsValid (0x53 ∷ 0x31 ∷ 0x30 ∷ []))
            (gdb_send_data-IsValid (0x53 ∷ 0x30 ∷ 0x35 ∷ [])))

    pub gdb_send_ack-IsValid : IsValid size (gdb_send_ack gdb).arm
    unfolding gdb_send_ack
    gdb_send_ack-IsValid = valid

    pub gdb_require_retransmission-IsValid : IsValid size (gdb_require_retransmission gdb).arm
    unfolding gdb_require_retransmission
    gdb_require_retransmission-IsValid = valid
