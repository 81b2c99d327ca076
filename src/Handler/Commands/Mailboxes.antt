-- ===== src/Handler/Commands/Mailboxes.antt =====
-- The methods of chromatic_imap/chromatic_imap_handler.cpp for commands on whole mailboxes.
use chromatic_imap_cplus_plu.Prelude.{true, false, not, ◌||◌, [], ◌++◌, if◌then◌else◌}
use chromatic_imap_cplus_plu.Prelude.Int.{pos}
use chromatic_imap_cplus_plu.Text.{Str, codes}
use chromatic_imap_cplus_plu.Handler.Types.{
  not_authenticated, invalid_state, selected, delete_state, Command, Service, Server, Reply,
  returned, raised, Handler, Outcome, done,
}
use chromatic_imap_cplus_plu.Handler.Output.{
  crlf, command_str, output_ok_response, output_no_response, check_connection_state,
  update_connection_state,
}
use chromatic_imap_cplus_plu.Handler.Commands.{
  ask, after, set_command, refuse, is_authenticated, is_selected, list_format, attempt,
  attempt_selecting,
}

module _ (server : Server) where
  open server use {State}

  unfoldable pub on_create : Str → Handler State → Outcome State
  unfolding output_ok_response output_no_response check_connection_state
  on_create params h =
      if not (is_authenticated h)
      then refuse not_authenticated h
      else attempt server Service.on_create params [] (codes "create completed")
          (codes "create failed") (set_command Command.create h)

  unfoldable pub on_delete : Str → Handler State → Outcome State
  unfolding output_ok_response output_no_response check_connection_state
  on_delete params h =
      if not (is_authenticated h)
      then refuse not_authenticated h
      else attempt server Service.on_delete params [] (codes "delete completed")
          (codes "delete failed") (set_command Command.delete h)

  unfoldable pub on_rename : Str → Handler State → Outcome State
  unfolding output_ok_response output_no_response check_connection_state
  on_rename params h0 =
      let h = set_command Command.rename h0 in
      if not (is_authenticated h)
      then refuse invalid_state h
      else attempt server Service.on_rename params (codes "%s") (codes "rename completed")
          (codes "rename failed") h

  unfoldable pub on_select : Str → Handler State → Outcome State
  unfolding output_ok_response output_no_response check_connection_state update_connection_state
  on_select params h0 =
      let h = set_command Command.select h0 in
      if not (is_authenticated h)
      then refuse invalid_state h
      else attempt_selecting server Service.on_select params (codes "%s")
          (codes "[read-write] select completed") (codes "select failed") h

  unfoldable pub on_examine : Str → Handler State → Outcome State
  unfolding output_ok_response output_no_response check_connection_state update_connection_state
  on_examine params h0 =
      let h = set_command Command.examine h0 in
      if not (is_authenticated h)
      then refuse invalid_state h
      else attempt_selecting server Service.on_examine params (codes "%s")
          (codes "[read-only] examine completed") (codes "examine failed") h

  unfoldable pub on_list : Str → Handler State → Outcome State
  unfolding output_ok_response output_no_response check_connection_state
  on_list params h0 =
      let h = set_command Command.list h0 in
      if not (is_authenticated h)
      then refuse invalid_state h
      else attempt server Service.on_list params (list_format h) (codes "list completed")
          (codes "list failed") h

  unfoldable pub on_lsub : Str → Handler State → Outcome State
  unfolding output_ok_response output_no_response check_connection_state
  on_lsub params h0 =
      let h = set_command Command.lsub h0 in
      if not (is_authenticated h)
      then refuse invalid_state h
      else attempt server Service.on_lsub params (list_format h) (codes "lsub completed")
          (codes "lsub failed") h

  unfoldable pub on_status : Str → Handler State → Outcome State
  unfolding output_ok_response output_no_response
  on_status params h0 =
      let h = set_command Command.status h0 in
      let fmt = codes "* " ++ command_str h ++ codes " %s (%s)" ++ crlf in
      attempt server Service.on_status params fmt (codes "status completed") (codes "status failed")
        h

  unfoldable pub on_subscribe : Str → Handler State → Outcome State
  unfolding output_ok_response output_no_response check_connection_state
  on_subscribe params h =
      if not (is_authenticated h)
      then refuse not_authenticated h
      else attempt server Service.on_subscribe params [] (codes "subscribe completed")
          (codes "subscribe failed") (set_command Command.subscribe h)

  unfoldable pub on_unsubscribe : Str → Handler State → Outcome State
  unfolding output_ok_response output_no_response check_connection_state
  on_unsubscribe params h =
      if not (is_authenticated h)
      then refuse not_authenticated h
      else attempt server Service.on_unsubscribe params [] (codes "unsubscribe completed")
          (codes "unsubscribe failed") (set_command Command.unsubscribe h)

  -- The mailbox is left on both results, but not on an exception.
  unfoldable pub answer_close : Reply State → Handler State → Handler State
  unfolding output_ok_response output_no_response update_connection_state
  answer_close (returned true text c) h =
      update_connection_state delete_state selected
        (output_ok_response (codes "close completed") (after text c h))
  answer_close (returned false text c) h =
      update_connection_state delete_state selected
        (output_no_response (codes "close failed") (after text c h))
  answer_close (raised what text c) h = output_no_response what (after text c h)

  unfoldable pub on_close : Str → Handler State → Outcome State
  unfolding answer_close check_connection_state
  on_close params h0 =
      let h = set_command Command.closing h0 in
      if not (is_authenticated h) || not (is_selected h)
      then refuse invalid_state h
      else done (answer_close (ask server Service.on_close params (codes "nil") h) h) (pos 0)
