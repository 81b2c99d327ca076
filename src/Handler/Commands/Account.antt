-- ===== src/Handler/Commands/Account.antt =====
-- `on_login`, `on_logout`, `on_capability`, `on_noop` and the methods that do nothing, of
-- chromatic_imap/chromatic_imap_handler.cpp.
use chromatic_imap_cplus_plu.Prelude.{true, false, not, ◌||◌, [], ◌++◌, if◌then◌else◌}
use chromatic_imap_cplus_plu.Prelude.Int.{pos, negsuc}
use chromatic_imap_cplus_plu.Text.{Str, codes}
use chromatic_imap_cplus_plu.Handler.Types.{
  already_authenticated, authenticated, add_state, Command, Service, Server, Reply, returned,
  raised, Handler, Outcome, done, threw,
}
use chromatic_imap_cplus_plu.Handler.Output.{
  crlf, command_str, output_ok_response, output_no_response, check_connection_state,
  update_connection_state,
}
use chromatic_imap_cplus_plu.Handler.Commands.{
  ask, after, set_command, refuse, is_authenticated, is_selected,
}

module _ (server : Server) where
  open server use {State}

  unfoldable pub on_authenticate : Str → Handler State → Outcome State
  on_authenticate params h = done h (pos 0)

  unfoldable pub on_check : Str → Handler State → Outcome State
  on_check params h = done h (pos 0)

  unfoldable pub on_starttls : Str → Handler State → Outcome State
  on_starttls params h = done h (pos 0)

  -- Not in a `try`; and a `false` gets no answer.
  unfoldable pub answer_capability : Reply State → Handler State → Outcome State
  unfolding output_ok_response
  answer_capability (returned true text c) h =
      done (output_ok_response (codes "capability completed") (after text c h)) (pos 0)
  answer_capability (returned false text c) h = done (after text c h) (pos 0)
  answer_capability (raised what text c) h = threw what (after text c h)

  unfoldable pub on_capability : Str → Handler State → Outcome State
  unfolding answer_capability
  on_capability params h0 =
      let h = set_command Command.capability h0 in
      let fmt = codes "* " ++ command_str h ++ codes " %s" ++ crlf in
      answer_capability (ask server Service.on_capability params fmt h) h

  -- Not in a `try`.
  unfoldable pub answer_login : Reply State → Handler State → Outcome State
  unfolding output_ok_response output_no_response update_connection_state
  answer_login (returned true text c) h =
      done
        (output_ok_response (codes "login completed")
          (update_connection_state add_state authenticated (after text c h)))
        (pos 0)
  answer_login (returned false text c) h =
      done (output_no_response (codes "login failed") (after text c h)) (pos 0)
  answer_login (raised what text c) h = threw what (after text c h)

  unfoldable pub on_login : Str → Handler State → Outcome State
  unfolding answer_login check_connection_state
  on_login params h0 =
      let h = set_command Command.login h0 in
      if is_authenticated h
      then refuse already_authenticated h
      else answer_login (ask server Service.on_login params [] h) h

  -- Not in a `try`.
  unfoldable pub answer_logout : Reply State → Handler State → Outcome State
  unfolding output_ok_response output_no_response
  answer_logout (returned true text c) h =
      done (output_ok_response (codes "logout completed") (after text c h)) (negsuc 0)
  answer_logout (returned false text c) h =
      done (output_no_response (codes "logout failed") (after text c h)) (negsuc 0)
  answer_logout (raised what text c) h = threw what (after text c h)

  unfoldable pub on_logout : Str → Handler State → Outcome State
  unfolding answer_logout
  on_logout params h0 =
      let h = set_command Command.logout h0 in
      answer_logout (ask server Service.on_logout params [] h) h

  -- The result of the call is not looked at, and an exception is dropped.
  unfoldable pub answer_noop : Reply State → Handler State → Handler State
  unfolding output_ok_response
  answer_noop (returned b text c) h = output_ok_response (codes "noop completed") (after text c h)
  answer_noop (raised what text c) h = after text c h

  unfoldable pub on_noop : Str → Handler State → Outcome State
  unfolding answer_noop check_connection_state
  on_noop params h0 =
      let h = set_command Command.noop h0 in
      if not (is_authenticated h) || not (is_selected h)
      then done h (pos 0)
      else done (answer_noop (ask server Service.on_noop params [] h) h) (pos 0)
