-- ===== src/Handler/Session.antt =====
-- The states of a session as an abstract machine, and what follows from its steps alone. The
-- commands of chromatic_imap/chromatic_imap_handler.cpp implement it.
pub mod Commands
pub mod Refines
pub mod Login
pub mod Security
pub mod Refusal
pub mod Uid
use chromatic_imap_cplus_plu.Prelude.{
  arith, ◌≡◌, refl, Bool, true, false, not, [], if◌then◌else◌, Bool-cases, inl, inr,
}
use chromatic_imap_cplus_plu.Handler.Commands.Account.{
  on_login, on_logout, on_noop, on_check, on_capability, on_starttls, answer_login, answer_noop,
  answer_logout, answer_capability,
}
use chromatic_imap_cplus_plu.Handler.Commands.Mailboxes.{
  on_create, on_select, on_examine, on_list, on_delete, on_rename, on_lsub, on_subscribe,
  on_unsubscribe, on_close, on_status, answer_close,
}
use chromatic_imap_cplus_plu.Handler.Commands.Messages.{
  on_search, on_copy, on_fetch, on_store, on_uid, on_expunge, on_append, run_uid, finish_uid,
}
use chromatic_imap_cplus_plu.Text.{Str}
use chromatic_imap_cplus_plu.Handler.Types.{
  add_state, ConnectionState, authenticated, selected, Service, Server, Reply, same_state, returned,
  raised, Handler, Outcome, done, threw,
}
use chromatic_imap_cplus_plu.Handler.Output.{
  check_connection_state, update_connection_state, output_ok_response, output_no_response,
  flush_stream_to_connector,
}
use chromatic_imap_cplus_plu.Handler.Commands.{answer, after}
use chromatic_imap_cplus_plu.Handler.Dispatch.{uid, Keyword}

abbrev pub States : Type 0
States = ConnectionState → Bool

abbrev pub final : {S : Type 0} → Outcome S → Handler S
final (done h ret) = h
final (threw what h) = h

abbrev pub selecting : Keyword → Bool
selecting Keyword.select = true
selecting Keyword.examine = true
selecting _ = false

abbrev pub with_state : ConnectionState → States → States
with_state s states = λ t. if same_state s t then true else states t

abbrev pub without_state : ConnectionState → States → States
without_state s states = λ t. if same_state s t then false else states t

module _ (server : Server) where
  open server use {State, call, uids}

  -- What a command with its parameters may do to the states of a session, which the manager's
  -- answer decides with the states.
  pub data SessionStep (params : Str) (context : State) : Keyword → States → States → Type 0 where
    stays : {k : Keyword} {s : States} → SessionStep params context k s s
    logs_in :
        {s : States} {text : Str} {c : State}
        → s authenticated ≡ false
        → call Service.on_login params [] context ≡ returned true text c
        → SessionStep params context Keyword.login s (with_state authenticated s)
    selects :
        {k : Keyword} {s : States}
        → selecting k ≡ true
        → s authenticated ≡ true
        → SessionStep params context k s (with_state selected s)
    closes :
        {s : States}
        → s authenticated ≡ true
        → s selected ≡ true
        → SessionStep params context Keyword.close s (without_state selected s)

  -- A step of some command.
  pub data Move : States → States → Type 0 where
    move :
        {params : Str} {context : State} {k : Keyword} {s t : States}
        → SessionStep params context k s t
        → Move s t

  -- A mailbox is selected only in an authenticated session.
  abbrev pub Consistent : States → Type 0
  Consistent s = s selected ≡ true → s authenticated ≡ true

  step-Consistent :
      {params : Str} {context : State} {k : Keyword} {s t : States}
      → SessionStep params context k s t
      → Consistent s
      → Consistent t
  step-Consistent stays h = h
  step-Consistent (logs_in a e) h = λ x. refl
  step-Consistent (selects e a) h = λ x. a
  step-Consistent (closes a e) h = λ x. a

  pub Move-Consistent : {s t : States} → Move s t → Consistent s → Consistent t
  Move-Consistent (move step) h = step-Consistent step h

  step-authenticated :
      {params : Str} {context : State} {k : Keyword} {s t : States}
      → SessionStep params context k s t
      → s authenticated ≡ true
      → t authenticated ≡ true
  step-authenticated stays h = h
  step-authenticated (logs_in a e) h = refl
  step-authenticated (selects e a) h = h
  step-authenticated (closes a e) h = h

  pub Move-authenticated :
      {s t : States} → Move s t → s authenticated ≡ true → t authenticated ≡ true
  Move-authenticated (move step) h = step-authenticated step h
