-- ===== src/Handler/Process.antt =====
-- `process` of chromatic_imap/chromatic_imap_handler.cpp: one request read from the peer, which
-- may come in several pieces, and answered.
pub mod Reading
pub mod Append
pub mod Answers
use chromatic_imap_cplus_plu.Prelude.{
  ℕ, false, not, ◌&&◌, ◌||◌, List, [], ◌∷◌, ◌++◌, leb, ◌==◌, if◌then◌else◌, length, drop, replicate,
}
use chromatic_imap_cplus_plu.Prelude.Int.{pos, negsuc}
use chromatic_imap_cplus_plu.Text.{Str, codes, find, found, c_str}
use chromatic_imap_cplus_plu.Handler.Types.{
  no_packet_error, Server, Handler, Outcome, done, threw, is_error, is_logout, is_append,
}
use chromatic_imap_cplus_plu.Handler.Output.{
  write, flush_stream_to_connector, format_packet_error, output_prompt,
}
use chromatic_imap_cplus_plu.Handler.Parse.{error_packet}
use chromatic_imap_cplus_plu.Handler.Dispatch.{perform}

abbrev pub const_command_buffer_length : ℕ
const_command_buffer_length = 1024

-- sizeof( rdbuf_len ), the size of an int
abbrev pub sizeof_int : ℕ
sizeof_int = 4

-- recv: the piece overwrites the front of the buffer. It is shorter than the buffer, so that a NUL
-- stands behind what is read of it.
abbrev pub recv : Str → Str → Str
recv piece rdbuf = piece ++ drop (length piece) rdbuf

-- memset( rdbuf , '\0' , sizeof( rdbuf_len ) )
abbrev pub clear_front : Str → Str
clear_front rdbuf = replicate sizeof_int 0 ++ drop sizeof_int rdbuf

module _ (server : Server) where
  open server use {State, append_text}

  -- What follows `perform` on the text read.
  unfoldable pub respond : Str → Outcome State → Outcome State
  unfolding flush_stream_to_connector format_packet_error
  respond text (threw what h) = threw what h
  respond text (done h ret) =
      if found (find (codes "\n") text) && length text == 2
      then done (flush_stream_to_connector (write (output_prompt false h) h)) (pos 0)
      else if is_logout h.command
      then done (flush_stream_to_connector h) (negsuc 0)
      else if is_error h.error
      then done (format_packet_error h.error h) (pos 0)
      else done (flush_stream_to_connector h) (pos 0)

  -- While the last command is APPEND, the text goes to the record to append.
  unfoldable pub take_request : Str → Handler State → Outcome State
  unfolding respond perform
  take_request text h =
      if is_append h.command
      then done (record h { context = append_text text h.context }) (pos 0)
      else respond text (perform server text h)

  -- The loop: the pieces still to come, the buffer, and the text read. No piece left stands for a
  -- `recv` that fails or times out.
  unfoldable pub process_loop : List Str → Str → Str → Handler State → Outcome State × List Str
  unfolding take_request
  process_loop [] rdbuf text h = (done h (pos 0), [])
  process_loop (piece ∷ pieces) rdbuf text h =
      let filled = recv piece rdbuf in
      let text = text ++ c_str filled in
      let rest = process_loop pieces (clear_front filled) text h in
      if found (find (3 ∷ []) text) || found (find (26 ∷ []) text)
      then (done h (negsuc 0), pieces)
      else if not (found (find (codes "\n") text)) && leb (length text) const_command_buffer_length
      then rest
      else (take_request text h, pieces)

  unfoldable pub process : ℕ → List Str → Handler State → Outcome State × List Str
  unfolding process_loop
  process rdbuf_len pieces h =
      process_loop pieces (replicate rdbuf_len 0) [] (error_packet no_packet_error h)
