-- ===== src/Handler/Dispatch.antt =====
-- `map_commands` and `perform` of chromatic_imap/chromatic_imap_handler.cpp.
pub mod Keywords
use chromatic_imap_cplus_plu.Prelude.{false, List, [], ◌∷◌, ◌++◌, Option, none, some, if◌then◌else◌}
use chromatic_imap_cplus_plu.Prelude.Int.{pos}
use chromatic_imap_cplus_plu.Text.{Str, codes, same}
use chromatic_imap_cplus_plu.Handler.Types.{
  invalid_payload, unrecognized_command, command_part, payload_part, Server, Handler, Outcome, done,
  is_error,
}
use chromatic_imap_cplus_plu.Handler.Strings.{lcase}
use chromatic_imap_cplus_plu.Handler.Output.{crlf, write, flush_stream_to_connector, output_prompt}
use chromatic_imap_cplus_plu.Handler.Parse.{Parts, find_part, error_packet, parse_command}
use chromatic_imap_cplus_plu.Handler.Commands.Account.{
  on_login, on_logout, on_noop, on_check, on_capability, on_starttls,
}
use chromatic_imap_cplus_plu.Handler.Commands.Mailboxes.{
  on_create, on_select, on_examine, on_list, on_delete, on_rename, on_lsub, on_subscribe,
  on_unsubscribe, on_close, on_status,
}
use chromatic_imap_cplus_plu.Handler.Commands.Messages.{
  on_search, on_copy, on_fetch, on_store, on_uid, on_expunge, on_append,
}

-- The methods that `command_map` points to.
pub data Keyword : Type 0 where
  login logout create select examine list delete rename lsub subscribe unsubscribe : Keyword
  noop check capability search copy fetch store uid close expunge append starttls : Keyword
  status : Keyword

-- What `map_commands` inserts; `none` is the null pointer, which it never is.
abbrev pub command_map : List (Str × Option Keyword)
command_map =
    (codes "login", some Keyword.login)
    ∷ (codes "logout", some Keyword.logout)
    ∷ (codes "create", some Keyword.create)
    ∷ (codes "select", some Keyword.select)
    ∷ (codes "examine", some Keyword.examine)
    ∷ (codes "list", some Keyword.list)
    ∷ (codes "delete", some Keyword.delete)
    ∷ (codes "rename", some Keyword.rename)
    ∷ (codes "lsub", some Keyword.lsub)
    ∷ (codes "subscribe", some Keyword.subscribe)
    ∷ (codes "unsubscribe", some Keyword.unsubscribe)
    ∷ (codes "noop", some Keyword.noop)
    ∷ (codes "check", some Keyword.check)
    ∷ (codes "capability", some Keyword.capability)
    ∷ (codes "search", some Keyword.search)
    ∷ (codes "copy", some Keyword.copy)
    ∷ (codes "fetch", some Keyword.fetch)
    ∷ (codes "store", some Keyword.store)
    ∷ (codes "uid", some Keyword.uid)
    ∷ (codes "close", some Keyword.close)
    ∷ (codes "expunge", some Keyword.expunge)
    ∷ (codes "append", some Keyword.append)
    ∷ (codes "starttls", some Keyword.starttls)
    ∷ (codes "status", some Keyword.status)
    ∷ []

abbrev pub find_command : Str → List (Str × Option Keyword) → Option (Option Keyword)
find_command word [] = none
find_command word (e ∷ entries) = if same word e.0 then some e.1 else find_command word entries

module _ (server : Server) where
  open server use {State, uids}

  -- The call through the pointer.
  unfoldable pub run_keyword : Keyword → Str → Handler State → Outcome State
  unfolding on_login on_logout on_create on_select on_examine on_list on_delete on_rename on_lsub
      on_subscribe on_unsubscribe on_noop on_check on_capability on_search on_copy on_fetch on_store
      on_uid on_close on_expunge on_append on_starttls on_status
  run_keyword Keyword.login params h = on_login server params h
  run_keyword Keyword.logout params h = on_logout server params h
  run_keyword Keyword.create params h = on_create server params h
  run_keyword Keyword.select params h = on_select server params h
  run_keyword Keyword.examine params h = on_examine server params h
  run_keyword Keyword.list params h = on_list server params h
  run_keyword Keyword.delete params h = on_delete server params h
  run_keyword Keyword.rename params h = on_rename server params h
  run_keyword Keyword.lsub params h = on_lsub server params h
  run_keyword Keyword.subscribe params h = on_subscribe server params h
  run_keyword Keyword.unsubscribe params h = on_unsubscribe server params h
  run_keyword Keyword.noop params h = on_noop server params h
  run_keyword Keyword.check params h = on_check server params h
  run_keyword Keyword.capability params h = on_capability server params h
  run_keyword Keyword.search params h = on_search server params h
  run_keyword Keyword.copy params h = on_copy server params h
  run_keyword Keyword.fetch params h = on_fetch server params h
  run_keyword Keyword.store params h = on_store server params h
  run_keyword Keyword.uid params h = on_uid server params h
  run_keyword Keyword.close params h = on_close server params h
  run_keyword Keyword.expunge params h = on_expunge server params h
  run_keyword Keyword.append params h = on_append server params h
  run_keyword Keyword.starttls params h = on_starttls server params h
  run_keyword Keyword.status params h = on_status server params h

  abbrev pub payload_of : Option Str → Str
  payload_of none = []
  payload_of (some payload) = payload

  abbrev pub reset_uid : Handler State → Handler State
  reset_uid h = record h { uid = false; context = uids false h.context }

  unfoldable pub dispatch : Option (Option Keyword) → Str → Handler State → Outcome State
  unfolding run_keyword flush_stream_to_connector
  dispatch none payload h = done (error_packet unrecognized_command h) (pos 0)
  dispatch (some none) payload h =
      done
        (flush_stream_to_connector (
          write (output_prompt false h ++ codes "NO no default action for this keyword" ++ crlf) h))
        (pos 0)
  dispatch (some (some keyword)) payload h = run_keyword keyword payload (reset_uid h)

  unfoldable pub perform_parts : Option Str → Parts → Handler State → Outcome State
  unfolding dispatch lcase
  perform_parts none parts h = done h (pos 0)
  perform_parts (some command) parts h =
      dispatch (find_command (lcase command) command_map)
        (payload_of (find_part payload_part parts)) h

  unfoldable pub perform_parsed : Handler State × Parts → Outcome State
  unfolding perform_parts
  perform_parsed p =
      if is_error p.0.error
      then done p.0 (pos 0)
      else perform_parts (find_part command_part p.1) p.1 p.0

  -- The result of the method called is not returned: `perform` is void.
  unfoldable pub perform : Str → Handler State → Outcome State
  unfolding perform_parsed parse_command
  perform [] h = done (error_packet invalid_payload h) (pos 0)
  perform (c ∷ packet) h = perform_parsed (parse_command (c ∷ packet) [] h)
