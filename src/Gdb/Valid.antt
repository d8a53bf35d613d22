-- ===== src/Gdb/Valid.antt =====
-- Whatever packets arrive, the processor stays in a well-formed state.
use projet_s.Common.{
  if_both, ℕ, zero, suc, ◌+◌, ◌-◌, ◌^◌, ◌<◌, ◌≡◌, ◌==◌, ◌&&◌, ◌||◌, ltb, length, take, drop, List,
  [], ◌∷◌, Option, none, some,
}
use projet_s.Outcome.{Ensures->>=, Ensures-if, Ensures-ok, Ensures-itself}
use projet_s.Word.{Host}
use projet_s.Word.Signed.{pos, negsuc, ltb_ℤ}
use projet_s.Arm.Valid.{IsValid}
use projet_s.Instruction.Valid.{arm_step-IsValid}
use projet_s.Gdb.State.{GdbProtocolData, gdb_send_ack, add_all, gdb_send_data}
use projet_s.Text.{atoi, pattern32, same_text, starts_with}
use projet_s.Gdb.Packet.{scan_number, Handler, handle, gdb_packet_analysis}
use projet_s.Gdb.Commands.{reason, ok_text}
use projet_s.Gdb.Commands.Queries.{
  query, read_register, set_thread, offsets, supported, t_status, symbol, sections, packet_size,
  not_run, e01_text,
}
use projet_s.Gdb.Commands.Continue.{cont, run, next_instruction, is_breakpoint}
use projet_s.Gdb.Handlers.{handler, kill_request}
use projet_s.Gdb.Sending.{
  gdb_send_ack-IsValid, gdb_require_retransmission-IsValid, Keeps, gdb_send_buffer-IsValid,
  gdb_send_data-IsValid, gdb_send_stop_reason-IsValid,
}
use projet_s.Gdb.Commands.Valid.{
  read_general_registers-IsValid, read_memory-IsValid, step-IsValid,
  write_general_registers-IsValid, write_memory_binary-IsValid, write_register-IsValid,
}

module _ (host : Host) (size : ℕ) where
  read_register-IsValid :
      (gdb : GdbProtocolData) (text : List ℕ)
      → IsValid size gdb.arm
      → Keeps size (read_register host gdb text)
  unfolding read_register
  read_register-IsValid gdb text valid = Ensures->>= (Ensures-itself (atoi text)) λ number e.
      Ensures-if (ltb (pattern32 number) 16) (gdb_send_buffer-IsValid size gdb valid _)
        (record { holds = tt })

  query-IsValid :
      (gdb : GdbProtocolData) (text : List ℕ) → IsValid size gdb.arm → Keeps size (query gdb text)
  unfolding query
  query-IsValid gdb text valid =
      let sent = gdb_send_data-IsValid size gdb valid in
      Ensures-if (same_text text offsets) (sent sections) (
        Ensures-if (starts_with supported text) (sent packet_size) (
          Ensures-if (same_text text t_status) (sent not_run)
            (Ensures-if (same_text text symbol) (sent []) (sent []))))

  set_thread-IsValid :
      (gdb : GdbProtocolData) (text : List ℕ)
      → IsValid size gdb.arm
      → Keeps size (set_thread gdb text)
  unfolding set_thread
  set_thread-IsValid gdb [] valid = gdb_send_data-IsValid size gdb valid e01_text
  set_thread-IsValid gdb (type ∷ text) valid = Ensures->>= (Ensures-itself (atoi text)) λ value e.
      Ensures-if ((type == 0x63 || type == 0x67) && (ltb_ℤ value (pos 1) && ltb_ℤ (negsuc 1) value))
        (gdb_send_data-IsValid size gdb valid ok_text)
        (gdb_send_data-IsValid size gdb valid e01_text)

  reason-IsValid :
      (gdb : GdbProtocolData) (text : List ℕ)
      → IsValid size gdb.arm
      → Keeps size (reason host gdb text)
  unfolding reason
  reason-IsValid gdb text valid = gdb_send_stop_reason-IsValid size gdb valid

  module _ (fits : host.indeterminate < 2 ^ 32) where
    run-IsValid :
        (rounds : ℕ) (gdb : GdbProtocolData) (instruction : ℕ)
        → IsValid size gdb.arm
        → Keeps size (run host rounds gdb instruction)
    unfolding run
    run-IsValid zero gdb instruction valid = record { holds = tt }
    run-IsValid (suc n) gdb instruction valid =
        Ensures->>= (Ensures-itself (next_instruction host gdb.arm instruction)) λ (status, ins) e.
          Ensures-if (is_breakpoint ins) (Ensures-ok valid) (
            Ensures->>= (arm_step-IsValid host fits valid) λ (result, p) still.
              run-IsValid n (record gdb { arm = p; target_exception = result }) ins still)

    cont-IsValid :
        (rounds : ℕ) (gdb : GdbProtocolData) (text : List ℕ)
        → IsValid size gdb.arm
        → Keeps size (cont host rounds gdb text)
    unfolding cont
    cont-IsValid rounds gdb text valid =
        Ensures->>= (run-IsValid rounds gdb host.indeterminate valid)
          λ last still. gdb_send_stop_reason-IsValid size last still

    module _ (shutdown : GdbProtocolData → GdbProtocolData)
        (leaves_arm : (gdb : GdbProtocolData) → (shutdown gdb).arm ≡ gdb.arm) (rounds : ℕ) where
      -- The handler for a character keeps the processor well-formed, if there is one.
      abbrev Kept : Option Handler → Type 0
      Kept none = Unit
      Kept (some h) =
          (gdb : GdbProtocolData) (text : List ℕ) → IsValid size gdb.arm → Keeps size (h gdb text)

      kill_request-IsValid : Kept (some (kill_request host shutdown rounds))
      unfolding kill_request
      kill_request-IsValid gdb text valid = Ensures-ok (rw (leaves_arm gdb) valid)

      handler-Kept : (c : ℕ) → Kept (handler host shutdown rounds c)
      unfolding handler
      handler-Kept c = if_both Kept (c == 0x63) (cont-IsValid rounds) (
          if_both Kept (c == 0x6B) kill_request-IsValid (
            if_both Kept (c == 0x71) query-IsValid (
              if_both Kept (c == 0x67) (read_general_registers-IsValid host size) (
                if_both Kept (c == 0x6D) (read_memory-IsValid host size) (
                  if_both Kept (c == 0x70) read_register-IsValid (
                    if_both Kept (c == 0x3F) reason-IsValid (
                      if_both Kept (c == 0x48) set_thread-IsValid (
                        if_both Kept (c == 0x73) (step-IsValid host size fits) (
                          if_both Kept (c == 0x47) (write_general_registers-IsValid host size) (
                            if_both Kept (c == 0x58) (write_memory_binary-IsValid host size) (
                              if_both Kept (c == 0x50) (write_register-IsValid host size)
                                tt)))))))))))

      answered :
          (found : Option Handler) (gdb : GdbProtocolData) (text : List ℕ)
          → Kept found
          → IsValid size gdb.arm
          → Keeps size (elim found [ some h ↦ h gdb text | none ↦ gdb_send_data gdb [] ])
      answered none gdb text kept valid = gdb_send_data-IsValid size gdb valid []
      answered (some h) gdb text kept valid = kept gdb text valid

      handle-IsValid :
          (gdb : GdbProtocolData) (text : List ℕ)
          → IsValid size gdb.arm
          → Keeps size (handle host (handler host shutdown rounds) gdb text)
      unfolding handle
      handle-IsValid gdb [] valid =
          answered (handler host shutdown rounds 0) gdb [] (handler-Kept 0) valid
      handle-IsValid gdb (c ∷ cs) valid =
          answered (handler host shutdown rounds c) gdb cs (handler-Kept c) valid

      -- Whatever packet arrives, and however many rounds a continued program runs, the processor is
      -- well-formed afterwards, if it was before.
      pub gdb_packet_analysis-IsValid :
          (gdb : GdbProtocolData) (packet : List ℕ)
          → IsValid size gdb.arm
          → Keeps size (gdb_packet_analysis host (handler host shutdown rounds) gdb packet)
      unfolding gdb_packet_analysis
      gdb_packet_analysis-IsValid gdb packet valid =
          Ensures-if
            (add_all (take (length packet - 4) (drop 1 packet)) 0
              == scan_number (drop (length packet - 4 + 2) packet) host.indeterminate)
            (handle-IsValid (gdb_send_ack gdb) (take (length packet - 4) (drop 1 packet))
              (gdb_send_ack-IsValid size gdb valid))
            (Ensures-ok (gdb_require_retransmission-IsValid size gdb valid))
