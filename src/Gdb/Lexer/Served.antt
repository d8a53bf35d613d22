-- ===== src/Gdb/Lexer/Served.antt =====
-- What is done for a stream of packets that arrives on the debugger's connection.
use projet_s.Common.{ℕ, ◌≡◌, refl, ap, ◌∙◌, Option, List, [], ◌∷◌}
use projet_s.Outcome.{Outcome, ok, fault, exited, unfinished, ◌>>=◌}
use projet_s.Word.{Host}
use projet_s.Gdb.Packet.{Handler, handle, gdb_packet_analysis, gdb_packet_analysis-frame}
use projet_s.Gdb.State.{GdbProtocolData, gdb_send_ack}
use projet_s.Gdb.Scanner.{ParserData, yylex, scan, handle_error, plus}
use projet_s.Gdb.Lexer.{lex}
use projet_s.Gdb.Lexer.Frames.{ArePlain, stream, packets, lex-stream}

module _ (host : Host) (handler : ℕ → Option Handler) where
  -- The handlers of some texts, one after the other, each after its acknowledgement.
  unfoldable pub serve : GdbProtocolData → List (List ℕ) → Outcome GdbProtocolData
  serve gdb [] = ok gdb
  serve gdb (text ∷ texts) = do gdb ← handle host handler (gdb_send_ack gdb) text; serve gdb texts

  no_error : (parser : ParserData) → parser.len ≡ 0 → handle_error parser ≡ ok parser
  unfolding handle_error
  no_error parser h = rw h refl

  -- A step on the connection carries over to the parser.
  carried :
      (parser : ParserData) (first : Outcome GdbProtocolData) (f : ParserData → Outcome ParserData)
      (g : GdbProtocolData → Outcome GdbProtocolData)
      → ((gdb : GdbProtocolData)
          → f (record parser { gdb = gdb }) ≡ (g gdb >>= λ gdb. ok (record parser { gdb = gdb })))
      → ((first >>= λ gdb. ok (record parser { gdb = gdb })) >>= f)
        ≡ ((first >>= g) >>= λ gdb. ok (record parser { gdb = gdb }))
  carried parser (ok gdb) f g same = same gdb
  carried parser fault f g same = refl
  carried parser (exited status) f g same = refl
  carried parser unfinished f g same = refl

  acknowledged :
      (parser : ParserData) (gdb : GdbProtocolData) (texts : List (List ℕ))
      → parser.len ≡ 0
      → yylex (gdb_packet_analysis host handler) (record parser { gdb = gdb }) (packets texts)
        ≡ (serve gdb texts >>= λ gdb. ok (record parser { gdb = gdb }))
      → (scan (gdb_packet_analysis host handler) (record parser { gdb = gdb }) plus >>= λ after.
          yylex (gdb_packet_analysis host handler) after (packets texts))
        ≡ (serve gdb texts >>= λ gdb. ok (record parser { gdb = gdb }))
  unfolding scan
  acknowledged parser gdb texts h rest = rw (no_error (record parser { gdb = gdb }) h) rest

  yylex-packets :
      (texts : List (List ℕ)) (parser : ParserData)
      → parser.len ≡ 0
      → yylex (gdb_packet_analysis host handler) parser (packets texts)
        ≡ (serve parser.gdb texts >>= λ gdb. ok (record parser { gdb = gdb }))
  unfolding yylex scan serve
  yylex-packets [] parser h = rw (no_error parser h) refl
  yylex-packets (text ∷ texts) parser h =
      rw (no_error parser h, gdb_packet_analysis-frame host handler parser.gdb text)
        (carried parser (handle host handler (gdb_send_ack parser.gdb) text)
          (λ after. scan (gdb_packet_analysis host handler) after plus >>= λ after.
            yylex (gdb_packet_analysis host handler) after (packets texts))
          (λ gdb. serve gdb texts)
          λ gdb.
            acknowledged parser gdb texts h (yylex-packets texts (record parser { gdb = gdb }) h))

  -- A stream of packets whose texts hold neither # nor $, each followed by an acknowledgement, is
  -- served packet by packet, in order, from a scanner with no character in error.
  pub yylex-lex :
      (texts : List (List ℕ)) (parser : ParserData)
      → ArePlain texts
      → parser.len ≡ 0
      → yylex (gdb_packet_analysis host handler) parser (lex (stream texts))
        ≡ (serve parser.gdb texts >>= λ gdb. ok (record parser { gdb = gdb }))
  yylex-lex texts parser plain_texts h =
      ap (yylex (gdb_packet_analysis host handler) parser) (lex-stream texts plain_texts)
      ∙ yylex-packets texts parser h
