-- ===== src/Handler/Commands.antt =====
-- What the command methods `on_...` of chromatic_imap/chromatic_imap_handler.cpp share. A test of
-- the connection state that fails sets the packet error and returns; `process` answers it later.
pub mod Account
pub mod Mailboxes
pub mod Messages
use chromatic_imap_cplus_plu.Prelude.{
  ℕ, zero, suc, ◌+◌, Bool, true, false, not, ◌&&◌, ◌||◌, List, [], ◌∷◌, ◌++◌, Option, none, some,
  if◌then◌else◌, take,
}
use chromatic_imap_cplus_plu.Prelude.Int.{ℤ, pos, negsuc}
use chromatic_imap_cplus_plu.Text.{Str, codes, same, find_first_of, substr}
use chromatic_imap_cplus_plu.Handler.Types.{
  PacketError, already_authenticated, not_authenticated, invalid_state, ConnectionState,
  authenticated, selected, add_state, delete_state, Command, Service, Server, Reply, returned,
  raised, Handler, Outcome, done, threw,
}
use chromatic_imap_cplus_plu.Handler.Strings.{lcase}
use chromatic_imap_cplus_plu.Handler.Output.{
  crlf, write, flush_stream_to_connector, command_str, output_ok_response, output_no_response,
  check_connection_state, update_connection_state,
}

module _ {S : Type 0} where
  -- What the call has streamed, and the manager after it.
  abbrev pub after : Str → S → Handler S → Handler S
  after text c h = record h { stream = h.stream ++ text; context = c }

  -- `try { if( bRet == true ) .. else output_no_response( .. ) } catch( chromatic_imap_mgr_error& )`
  abbrev pub answer : Reply S → (Handler S → Handler S) → Str → Handler S → Handler S
  answer (returned true text c) on_true fail h = on_true (after text c h)
  answer (returned false text c) on_true fail h = output_no_response fail (after text c h)
  answer (raised what text c) on_true fail h = output_no_response what (after text c h)

  abbrev pub set_command : Command → Handler S → Handler S
  set_command c h = record h { command = c }

  abbrev pub refuse : PacketError → Handler S → Outcome S
  refuse e h = done (record h { error = e }) (pos 0)

  abbrev pub is_authenticated : Handler S → Bool
  is_authenticated = check_connection_state authenticated

  abbrev pub is_selected : Handler S → Bool
  is_selected = check_connection_state selected

  -- "* " << command_str() << " (%s) \"%s\" \"%s\"" << crlf
  abbrev pub list_format : Handler S → Str
  list_format h = codes "* " ++ command_str h ++ codes " (%s) \"%s\" \"%s\"" ++ crlf

module _ (server : Server) where
  open server use {State, call}

  abbrev pub ask : Service → Str → Str → Handler State → Reply State
  ask service params fmt h = call service params fmt h.context

  -- The flow of most methods: the call in a `try`, and an OK or a NO of its own.
  abbrev pub attempt : Service → Str → Str → Str → Str → Handler State → Outcome State
  attempt service params fmt ok_text no_text h =
      done (answer (ask service params fmt h) (output_ok_response ok_text) no_text h) (pos 0)

  -- The same, where a success also selects the mailbox.
  abbrev pub attempt_selecting : Service → Str → Str → Str → Str → Handler State → Outcome State
  attempt_selecting service params fmt ok_text no_text h =
      done
        (answer (ask service params fmt h)
          (λ g. update_connection_state add_state selected (output_ok_response ok_text g)) no_text
          h)
        (pos 0)
