-- ===== src/Handler/Session/Login.antt =====
-- The run of `process` of chromatic_imap/chromatic_imap_handler.cpp in which a client becomes authenticated.
use chromatic_imap_cplus_plu.Prelude.Int.{ℤ}
use chromatic_imap_cplus_plu.Prelude.{
  length, leb, ◌&&◌, ◌||◌, sym, subst, refl, ap, ◌≡◌, ◌∙◌, ℕ, true, false, Bool-cases, inl, inr,
  Option, none, some, List, [], ◌∷◌, ◌++◌, arith,
}
use chromatic_imap_cplus_plu.Text.{codes, find, found, Str, c_str}
use chromatic_imap_cplus_plu.Handler.Types.{
  Server, Service, Reply, returned, raised, Handler, Outcome, done, threw, authenticated,
  payload_part, command_part, no_packet_error, is_error, is_append,
}
use chromatic_imap_cplus_plu.Handler.Strings.{lcase}
use chromatic_imap_cplus_plu.Handler.Output.{
  flush_stream_to_connector, format_packet_error, check_connection_state, update_connection_state,
  output_ok_response, output_no_response,
}
use chromatic_imap_cplus_plu.Handler.Commands.Account.{on_login, answer_login}
use chromatic_imap_cplus_plu.Handler.Parse.{
  error_packet, Parts, find_part, parse_command, parse_token, parse_rest,
}
use chromatic_imap_cplus_plu.Handler.Dispatch.{
  Keyword, run_keyword, payload_of, reset_uid, dispatch, find_command, command_map, perform_parts,
  perform_parsed, perform,
}
use chromatic_imap_cplus_plu.Handler.Process.{
  const_command_buffer_length, recv, clear_front, respond, take_request, process_loop, process,
}
use chromatic_imap_cplus_plu.Handler.Session.{
  not, States, final, SessionStep, stays, logs_in, selects, closes,
}
use chromatic_imap_cplus_plu.Handler.Session.Refines.{run_keyword-SessionStep}

module _ (server : Server) where
  open server use {State, call, uids}

  -- From one handler to another the client has become authenticated.
  abbrev Entered : Handler State → Handler State → Type 0
  Entered h g = (h.states authenticated ≡ false) × (g.states authenticated ≡ true)

  -- The manager has accepted a LOGIN with these parameters, and is in the state which that has left.
  abbrev AcceptedWith : Str → State → State → Type 0
  AcceptedWith params before now =
      (out : Str) × (call Service.on_login params [] before ≡ returned true out now)

  step-login :
      {params : Str} {context : State} {k : Keyword} {s t : States}
      → SessionStep server params context k s t
      → s authenticated ≡ false
      → t authenticated ≡ true
      → k ≡ Keyword.login
  step-login stays h e = grind arith
  step-login (logs_in a r) h e = refl
  step-login (selects r a) h e = grind arith
  step-login (closes a r) h e = grind arith

  answer_login-Accepted :
      (r : Reply State) (params : Str) (before : State) (g : Handler State)
      → call Service.on_login params [] before ≡ r
      → Entered g (final (answer_login server r g))
      → AcceptedWith params before (final (answer_login server r g)).context
  unfolding answer_login update_connection_state output_ok_response output_no_response
  answer_login-Accepted (returned true text c) params before g e k = (text, e)
  answer_login-Accepted (returned false text c) params before g e k = grind arith
  answer_login-Accepted (raised what text c) params before g e k = grind arith

  on_login-Accepted :
      (params : Str) (h : Handler State)
      → Entered h (final (on_login server params h))
      → AcceptedWith params h.context (final (on_login server params h)).context
  unfolding on_login check_connection_state
  on_login-Accepted params h = elim (Bool-cases (h.states authenticated)) [
    | inl a ↦ λ k. grind arith
    | inr a ↦ rw a (λ e. answer_login-Accepted _ params h.context _ refl (a, e.1))
  ]

  run_keyword-Accepted :
      (k : Keyword) (params : Str) (h : Handler State)
      → Entered h (final (run_keyword server k params h))
      → AcceptedWith params h.context (final (run_keyword server k params h)).context
  run_keyword-Accepted k params h e =
      let login = step-login (run_keyword-SessionStep server k params h) e.0 e.1 in
      subst
        (λ k.
          Entered h (final (run_keyword server k params h))
          → AcceptedWith params h.context (final (run_keyword server k params h)).context)
        (sym login) (unfold run_keyword in on_login-Accepted params h) e

  dispatch-Accepted :
      (o : Option (Option Keyword)) (payload : Str) (h : Handler State)
      → Entered h (final (dispatch server o payload h))
      → AcceptedWith payload (uids false h.context) (final (dispatch server o payload h)).context
  unfolding dispatch flush_stream_to_connector
  dispatch-Accepted none payload h e = grind arith
  dispatch-Accepted (some none) payload h e = ground arith
  dispatch-Accepted (some (some k)) payload h e =
      run_keyword-Accepted k payload (reset_uid server h) e

  perform_parts-Accepted :
      (o : Option Str) (parts : Parts) (h : Handler State)
      → Entered h (final (perform_parts server o parts h))
      → AcceptedWith
          (payload_of server (find_part payload_part parts))
          (uids false h.context)
          (final (perform_parts server o parts h)).context
  unfolding perform_parts
  perform_parts-Accepted none parts h e = grind arith
  perform_parts-Accepted (some command) parts h e =
      dispatch-Accepted (find_command (lcase command) command_map)
        (payload_of server (find_part payload_part parts)) h e

  perform_parsed-Accepted :
      (p : Handler State × Parts)
      → Entered p.0 (final (perform_parsed server p))
      → AcceptedWith
          (payload_of server (find_part payload_part p.1))
          (uids false p.0.context)
          (final (perform_parsed server p)).context
  unfolding perform_parsed
  perform_parsed-Accepted p = elim (Bool-cases (is_error p.0.error)) [
    | inl e ↦ rw e (λ k. grind arith)
    | inr e ↦ rw e (perform_parts-Accepted (find_part command_part p.1) p.1 p.0)
  ]

  -- What `parse_command` leaves of the session and of the manager.
  parse_command-keeps :
      (packet : Str) (parts : Parts) (h : Handler State)
      → ((parse_command packet parts h).0.states ≡ h.states)
        × ((parse_command packet parts h).0.context ≡ h.context)
  unfolding parse_command parse_token parse_rest
  parse_command-keeps packet parts h = ground arith

  -- The parameters in a text that the client has sent.
  abbrev pub login_params : Str → Handler State → Str
  login_params text h = payload_of server (find_part payload_part (parse_command text [] h).1)

  perform-Accepted :
      (text : Str) (h : Handler State)
      → Entered h (final (perform server text h))
      → AcceptedWith
          (login_params text h)
          (uids false h.context)
          (final (perform server text h)).context
  unfolding perform
  perform-Accepted [] h e = grind arith
  perform-Accepted (c ∷ text) h e =
      let parsed = parse_command (c ∷ text) [] h in
      let kept = parse_command-keeps (c ∷ text) [] h in
      let accepted =
        perform_parsed-Accepted parsed (ap (λ (s : States). s authenticated) kept.0 ∙ e.0, e.1) in
      subst
        (λ (before : State).
          AcceptedWith (login_params (c ∷ text) h) (uids false before)
            (final (perform_parsed server parsed)).context)
        kept.1 accepted

  answered-keeps :
      (text : Str) (h : Handler State) (ret : ℤ)
      → ((final (respond server text (done h ret))).states ≡ h.states)
        × ((final (respond server text (done h ret))).context ≡ h.context)
  unfolding respond flush_stream_to_connector format_packet_error
  answered-keeps text h ret = ground arith

  respond-keeps :
      (text : Str) (o : Outcome State)
      → ((final (respond server text o)).states ≡ (final o).states)
        × ((final (respond server text o)).context ≡ (final o).context)
  unfolding respond
  respond-keeps text (threw what h) = (refl, refl)
  respond-keeps text (done h ret) = answered-keeps text h ret

  take_request-Accepted :
      (text : Str) (h : Handler State)
      → Entered h (final (take_request server text h))
      → AcceptedWith
          (login_params text h)
          (uids false h.context)
          (final (take_request server text h)).context
  unfolding take_request
  take_request-Accepted text h = elim (Bool-cases (is_append h.command)) [
    | inl e ↦ rw e (λ k. grind arith)
    | inr e ↦
        let kept = respond-keeps text (perform server text h) in
        rw (e, kept.0, kept.1) (perform-Accepted text h)
  ]

  -- The manager has accepted a LOGIN in a run, with the parameters in a text that the run has read, and is in
  -- the state which that has left.
  abbrev pub Accepted : Handler State → Handler State → Type 0
  Accepted h g = (text : Str) × AcceptedWith (login_params text h) (uids false h.context) g.context

  process_loop-Accepted :
      (pieces : List Str) (rdbuf text : Str) (h : Handler State)
      → Entered h (final (process_loop server pieces rdbuf text h).0)
      → Accepted h (final (process_loop server pieces rdbuf text h).0)
  unfolding process_loop
  process_loop-Accepted [] rdbuf text h = λ e. grind arith
  process_loop-Accepted (piece ∷ pieces) rdbuf text h =
      let filled = recv piece rdbuf in
      let more = text ++ c_str filled in
      elim (Bool-cases (found (find (3 ∷ []) more) || found (find (26 ∷ []) more))) [
        | inl stop ↦ rw stop (λ e. grind arith)
        | inr on ↦
            elim (Bool-cases (
              not (found (find (codes "\n") more))
              && leb (length more) const_command_buffer_length)) [
                | inl again ↦
                    rw (on, again) (process_loop-Accepted pieces (clear_front filled) more h)
                | inr whole ↦ rw (on, whole) (λ e. (more, take_request-Accepted more h e))
              ]
      ]

  -- A run of `process` in which the client becomes authenticated.
  pub process-Accepted :
      (rdbuf_len : ℕ) (pieces : List Str) (h : Handler State)
      → Entered h (final (process server rdbuf_len pieces h).0)
      → Accepted (error_packet no_packet_error h) (final (process server rdbuf_len pieces h).0)
  unfolding process
  process-Accepted rdbuf_len pieces h e =
      process_loop-Accepted pieces _ [] (error_packet no_packet_error h) e
