-- ===== src/Handler/Commands/Messages.antt =====
-- The methods of chromatic_imap/chromatic_imap_handler.cpp for commands on messages.
use chromatic_imap_cplus_plu.Prelude.{
  ◌+◌, true, not, ◌||◌, [], ◌++◌, none, some, if◌then◌else◌, take,
}
use chromatic_imap_cplus_plu.Prelude.Int.{pos}
use chromatic_imap_cplus_plu.Text.{Str, codes, same, find_first_of, substr}
use chromatic_imap_cplus_plu.Handler.Types.{
  invalid_state, Command, Service, Server, Handler, Outcome, done, threw,
}
use chromatic_imap_cplus_plu.Handler.Strings.{lcase}
use chromatic_imap_cplus_plu.Handler.Output.{
  crlf, write, flush_stream_to_connector, command_str, output_ok_response, output_no_response,
  check_connection_state,
}
use chromatic_imap_cplus_plu.Handler.Commands.{
  ask, answer, set_command, refuse, is_authenticated, is_selected, attempt,
}

module _ (server : Server) where
  open server use {State, uids}

  unfoldable pub on_append : Str → Handler State → Outcome State
  unfolding output_no_response flush_stream_to_connector
  on_append params h0 =
      let h = set_command Command.append h0 in
      let fmt = codes "* " ++ command_str h ++ codes "%s" ++ crlf in
      done
        (answer (ask server Service.on_append params fmt h)
          (λ g. flush_stream_to_connector (write (codes "+ waiting" ++ crlf) g))
          (codes "append failed") h)
        (pos 0)

  unfoldable pub on_copy : Str → Handler State → Outcome State
  unfolding output_ok_response output_no_response check_connection_state
  on_copy params h0 =
      let h = set_command Command.copy h0 in
      if not (is_authenticated h) || not (is_selected h)
      then refuse invalid_state h
      else attempt server Service.on_copy params (codes "nil") (codes "copy completed")
          (codes "copy failed") h

  unfoldable pub on_expunge : Str → Handler State → Outcome State
  unfolding output_ok_response output_no_response check_connection_state
  on_expunge params h0 =
      let h = set_command Command.expunge h0 in
      if not (is_authenticated h) || not (is_selected h)
      then refuse invalid_state h
      else attempt server Service.on_expunge params (codes "nil") (codes "expunge completed")
          (codes "expunge failed") h

  -- Under UID the OK is left to `on_uid`.
  unfoldable pub on_fetch : Str → Handler State → Outcome State
  unfolding output_ok_response output_no_response check_connection_state
  on_fetch params h0 =
      let h = set_command Command.fetch h0 in
      if not (is_authenticated h) || not (is_selected h)
      then refuse invalid_state h
      else done
          (answer (ask server Service.on_fetch params (codes "nil") h)
            (λ g. if not g.uid then output_ok_response (codes "fetch completed") g else g)
            (codes "fetch failed") h)
          (pos 0)

  unfoldable pub on_search : Str → Handler State → Outcome State
  unfolding output_ok_response output_no_response check_connection_state
  on_search params h0 =
      let h = set_command Command.searching h0 in
      if not (is_authenticated h)
      then refuse invalid_state h
      else done
          (answer (ask server Service.on_search params (codes "%s") h)
            (λ g. if not g.uid then output_ok_response (codes "search completed") g else g)
            (codes "search failed") h)
          (pos 0)

  unfoldable pub on_store : Str → Handler State → Outcome State
  unfolding output_ok_response output_no_response check_connection_state
  on_store params h0 =
      let h = set_command Command.store h0 in
      if not (is_authenticated h) || not (is_selected h)
      then refuse invalid_state h
      else attempt server Service.on_store params [] (codes "store completed")
          (codes "store failed") h

  -- What `on_uid` runs: the word before the first space, and the text behind it, in lower case.
  unfoldable pub run_uid : Str → Str → Handler State → Outcome State
  unfolding on_fetch on_search
  run_uid word param h =
      if same word (codes "fetch")
      then on_fetch param h
      else if same word (codes "search")
      then on_search param h
      else done h (pos 0)

  -- The OK follows whatever the command within answered.
  unfoldable pub finish_uid : Outcome State → Outcome State
  unfolding output_ok_response
  finish_uid (done h ret) = done (output_ok_response (codes "uid completed") h) (pos 0)
  finish_uid (threw what h) = threw what h

  unfoldable pub on_uid : Str → Handler State → Outcome State
  unfolding run_uid finish_uid lcase
  on_uid params h0 =
      let h = record h0 { uid = true; context = uids true h0.context } in
      let str = lcase params in
      elim (find_first_of (codes " ") str) [
        | none ↦ finish_uid (done h (pos 0))
        | some idx ↦ finish_uid (run_uid (take idx str) (substr (idx + 1) str) h)
      ]
