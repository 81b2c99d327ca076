-- ===== src/Handler/Session/Commands.antt =====
-- Each method `on_...` of chromatic_imap/chromatic_imap_handler.cpp takes a step of the session.
use chromatic_imap_cplus_plu.Prelude.Int.{pos}
use chromatic_imap_cplus_plu.Handler.Strings.{lcase}
use chromatic_imap_cplus_plu.Prelude.{
  take, ◌+◌, ◌∙◌, Option-cases, arith, ◌≡◌, refl, true, false, [], Bool-cases, inl, inr,
}
use chromatic_imap_cplus_plu.Handler.Commands.Account.{
  on_login, on_logout, on_noop, on_check, on_capability, on_starttls, answer_login, answer_noop,
  answer_logout, answer_capability,
}
use chromatic_imap_cplus_plu.Handler.Commands.Mailboxes.{
  on_create, on_select, on_examine, on_list, on_delete, on_rename, on_lsub, on_subscribe,
  on_unsubscribe, on_close, on_status, answer_close,
}
use chromatic_imap_cplus_plu.Handler.Commands.Messages.{
  on_search, on_copy, on_fetch, on_store, on_uid, on_expunge, on_append, run_uid, finish_uid,
}
use chromatic_imap_cplus_plu.Text.{substr, codes, find_first_of, Str}
use chromatic_imap_cplus_plu.Handler.Types.{
  add_state, authenticated, selected, Service, Server, Reply, returned, raised, Handler, Outcome,
  done, threw,
}
use chromatic_imap_cplus_plu.Handler.Output.{
  check_connection_state, update_connection_state, output_ok_response, output_no_response,
  flush_stream_to_connector,
}
use chromatic_imap_cplus_plu.Handler.Commands.{answer}
use chromatic_imap_cplus_plu.Handler.Dispatch.{Keyword}
use chromatic_imap_cplus_plu.Handler.Session.{
  selects, closes, stays, States, logs_in, selecting, SessionStep, final,
}

module _ (server : Server) where
  open server use {State, call, uids}

  -- Most commands leave the states alone.
  pub logout-states :
      (params : Str) (h : Handler State) → (final (on_logout server params h)).states ≡ h.states
  unfolding on_logout answer_logout output_ok_response output_no_response check_connection_state
  logout-states params h = ground arith

  pub noop-states :
      (params : Str) (h : Handler State) → (final (on_noop server params h)).states ≡ h.states
  unfolding on_noop answer_noop output_ok_response output_no_response check_connection_state
  noop-states params h = ground arith

  pub check-states :
      (params : Str) (h : Handler State) → (final (on_check server params h)).states ≡ h.states
  unfolding on_check output_ok_response output_no_response check_connection_state
  check-states params h = ground arith

  pub capability-states :
      (params : Str) (h : Handler State) → (final (on_capability server params h)).states ≡ h.states
  unfolding on_capability answer_capability output_ok_response output_no_response
      check_connection_state
  capability-states params h = ground arith

  pub starttls-states :
      (params : Str) (h : Handler State) → (final (on_starttls server params h)).states ≡ h.states
  unfolding on_starttls output_ok_response output_no_response check_connection_state
  starttls-states params h = ground arith

  pub create-states :
      (params : Str) (h : Handler State) → (final (on_create server params h)).states ≡ h.states
  unfolding on_create output_ok_response output_no_response check_connection_state
  create-states params h = ground arith

  pub delete-states :
      (params : Str) (h : Handler State) → (final (on_delete server params h)).states ≡ h.states
  unfolding on_delete output_ok_response output_no_response check_connection_state
  delete-states params h = ground arith

  pub rename-states :
      (params : Str) (h : Handler State) → (final (on_rename server params h)).states ≡ h.states
  unfolding on_rename output_ok_response output_no_response check_connection_state
  rename-states params h = ground arith

  pub list-states :
      (params : Str) (h : Handler State) → (final (on_list server params h)).states ≡ h.states
  unfolding on_list output_ok_response output_no_response check_connection_state
  list-states params h = ground arith

  pub lsub-states :
      (params : Str) (h : Handler State) → (final (on_lsub server params h)).states ≡ h.states
  unfolding on_lsub output_ok_response output_no_response check_connection_state
  lsub-states params h = ground arith

  pub status-states :
      (params : Str) (h : Handler State) → (final (on_status server params h)).states ≡ h.states
  unfolding on_status output_ok_response output_no_response check_connection_state
  status-states params h = ground arith

  pub subscribe-states :
      (params : Str) (h : Handler State) → (final (on_subscribe server params h)).states ≡ h.states
  unfolding on_subscribe output_ok_response output_no_response check_connection_state
  subscribe-states params h = ground arith

  pub unsubscribe-states :
      (params : Str) (h : Handler State)
      → (final (on_unsubscribe server params h)).states ≡ h.states
  unfolding on_unsubscribe output_ok_response output_no_response check_connection_state
  unsubscribe-states params h = ground arith

  pub append-states :
      (params : Str) (h : Handler State) → (final (on_append server params h)).states ≡ h.states
  unfolding on_append flush_stream_to_connector output_ok_response output_no_response
      check_connection_state
  append-states params h = ground arith

  pub copy-states :
      (params : Str) (h : Handler State) → (final (on_copy server params h)).states ≡ h.states
  unfolding on_copy output_ok_response output_no_response check_connection_state
  copy-states params h = ground arith

  pub expunge-states :
      (params : Str) (h : Handler State) → (final (on_expunge server params h)).states ≡ h.states
  unfolding on_expunge output_ok_response output_no_response check_connection_state
  expunge-states params h = ground arith

  pub fetch-states :
      (params : Str) (h : Handler State) → (final (on_fetch server params h)).states ≡ h.states
  unfolding on_fetch output_ok_response output_no_response check_connection_state
  fetch-states params h = ground arith

  pub search-states :
      (params : Str) (h : Handler State) → (final (on_search server params h)).states ≡ h.states
  unfolding on_search output_ok_response output_no_response check_connection_state
  search-states params h = ground arith

  pub store-states :
      (params : Str) (h : Handler State) → (final (on_store server params h)).states ≡ h.states
  unfolding on_store output_ok_response output_no_response check_connection_state
  store-states params h = ground arith

  pub run_uid-states :
      (word param : Str) (h : Handler State)
      → (final (run_uid server word param h)).states ≡ h.states
  unfolding run_uid
  run_uid-states word param h = ground (arith, fetch-states param h, search-states param h)

  pub finish_uid-states :
      (o : Outcome State) → (final (finish_uid server o)).states ≡ (final o).states
  unfolding finish_uid output_ok_response
  finish_uid-states (done h ret) = refl
  finish_uid-states (threw what h) = refl

  finish_run-states :
      (word param : Str) (h : Handler State)
      → (final (finish_uid server (run_uid server word param h))).states ≡ h.states
  finish_run-states word param h =
      finish_uid-states (run_uid server word param h) ∙ run_uid-states word param h

  pub uid-states :
      (params : Str) (h : Handler State) → (final (on_uid server params h)).states ≡ h.states
  unfolding on_uid
  uid-states params h0 = elim (Option-cases (find_first_of (codes " ") (lcase params))) [
    | inl e ↦ rw (e, final) (finish_uid-states (done h (pos 0)))
    | inr (idx, e) ↦
        rw (e, final)
          (finish_run-states (take idx (lcase params)) (substr (idx + 1) (lcase params)) h)
  ]
    where
      h : Handler State
      h = record h0 { uid = true; context = uids true h0.context }

  module _ (params : Str) (h : Handler State) where
    pub keep :
        (k : Keyword) (s : States) → s ≡ h.states → SessionStep server params h.context k h.states s
    keep k s e = rw e stays

    selecting-step :
        (k : Keyword) (r : Reply State) (ok_text fail : Str) (g : Handler State)
        → g.states ≡ h.states
        → selecting k ≡ true
        → h.states authenticated ≡ true
        → SessionStep server params h.context k h.states
            (answer r
              (λ g. update_connection_state add_state selected (output_ok_response ok_text g))
              fail
              g).states
    unfolding update_connection_state output_ok_response output_no_response
    selecting-step k (returned true text c) ok_text fail g same e a = rw same (selects e a)
    selecting-step k (returned false text c) ok_text fail g same e a = rw same stays
    selecting-step k (raised what text c) ok_text fail g same e a = rw same stays

    pub select-step :
        SessionStep server params h.context Keyword.select h.states
          (final (on_select server params h)).states
    unfolding on_select check_connection_state
    select-step = elim (Bool-cases (h.states authenticated)) [
      | inl e ↦ rw e (selecting-step Keyword.select _ _ _ _ refl refl e)
      | inr e ↦ rw e stays
    ]

    pub examine-step :
        SessionStep server params h.context Keyword.examine h.states
          (final (on_examine server params h)).states
    unfolding on_examine check_connection_state
    examine-step = elim (Bool-cases (h.states authenticated)) [
      | inl e ↦ rw e (selecting-step Keyword.examine _ _ _ _ refl refl e)
      | inr e ↦ rw e stays
    ]

    answer_close-step :
        (r : Reply State) (g : Handler State)
        → g.states ≡ h.states
        → h.states authenticated ≡ true
        → h.states selected ≡ true
        → SessionStep server params h.context Keyword.close h.states
            (answer_close server r g).states
    unfolding answer_close update_connection_state output_ok_response output_no_response
    answer_close-step (returned true text c) g same a e = rw same (closes a e)
    answer_close-step (returned false text c) g same a e = rw same (closes a e)
    answer_close-step (raised what text c) g same a e = rw same stays

    pub close-step :
        SessionStep server params h.context Keyword.close h.states
          (final (on_close server params h)).states
    unfolding on_close check_connection_state
    close-step = elim (Bool-cases (h.states authenticated)) [
      | inl a ↦ elim (Bool-cases (h.states selected)) [
        | inl e ↦ rw (a, e) (answer_close-step _ _ refl a e)
        | inr e ↦ rw (a, e) stays
      ]
      | inr a ↦ rw a stays
    ]

    answer_login-step :
        (r : Reply State) (g : Handler State)
        → call Service.on_login params [] h.context ≡ r
        → g.states ≡ h.states
        → h.states authenticated ≡ false
        → SessionStep server params h.context Keyword.login h.states
            (final (answer_login server r g)).states
    unfolding answer_login update_connection_state output_ok_response output_no_response
    answer_login-step (returned true text c) g e same a = rw same (logs_in a e)
    answer_login-step (returned false text c) g e same a = rw same stays
    answer_login-step (raised what text c) g e same a = rw same stays

    pub login-step :
        SessionStep server params h.context Keyword.login h.states
          (final (on_login server params h)).states
    unfolding on_login check_connection_state
    login-step = elim (Bool-cases (h.states authenticated)) [
      | inl a ↦ rw a stays
      | inr a ↦ rw a (answer_login-step _ _ refl refl a)
    ]
