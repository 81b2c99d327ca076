-- ===== src/Handler/Session/Refines.antt =====
-- `perform` and `process` of chromatic_imap/chromatic_imap_handler.cpp take steps of the session.
use chromatic_imap_cplus_plu.Handler.Strings.{lcase}
use chromatic_imap_cplus_plu.Handler.Output.{flush_stream_to_connector, format_packet_error}
use chromatic_imap_cplus_plu.Handler.Output.{format_packet_error}
use chromatic_imap_cplus_plu.Prelude.{
  refl, ◌∷◌, [], some, none, Option, inl, inr, ◌++◌, subst, ℕ, some, ◌∷◌, List, Option,
}
use chromatic_imap_cplus_plu.Handler.Process.{
  recv, clear_front, process, process_loop, take_request, respond,
}
use chromatic_imap_cplus_plu.Handler.Parse.{
  find_part, error_packet, Parts, parse_rest, parse_token, parse_command,
}
use chromatic_imap_cplus_plu.Handler.Session.Commands.{
  status-states, starttls-states, append-states, expunge-states, close-step, uid-states,
  store-states, fetch-states, copy-states, search-states, capability-states, check-states,
  noop-states, unsubscribe-states, subscribe-states, lsub-states, rename-states, delete-states,
  list-states, examine-step, select-step, create-states, logout-states, keep, login-step,
}
use chromatic_imap_cplus_plu.Handler.Session.{
  done, threw, Outcome, inr, stays, inl, [], move, Bool-cases, flush_stream_to_connector, Move,
  States, arith, ◌≡◌, final, SessionStep,
}
use chromatic_imap_cplus_plu.Text.{c_str, Str}
use chromatic_imap_cplus_plu.Handler.Dispatch.{
  payload_of, command_map, find_command, reset_uid, perform_parts, perform, dispatch,
  perform_parsed, Keyword, run_keyword,
}
use chromatic_imap_cplus_plu.Handler.Types.{
  payload_part, command_part, no_packet_error, is_error, is_append, Handler, Server,
}

module _ (server : Server) where
  open server use {State, call, uids}

  -- Every command, on every branch of it, takes a step of the session that the abstract machine
  -- allows for its keyword.
  pub run_keyword-SessionStep :
      (k : Keyword) (params : Str) (h : Handler State)
      → SessionStep server params h.context k h.states
          (final (run_keyword server k params h)).states
  unfolding run_keyword
  run_keyword-SessionStep Keyword.login params h = login-step server params h
  run_keyword-SessionStep Keyword.logout params h =
      keep server params h Keyword.logout _ (logout-states server params h)
  run_keyword-SessionStep Keyword.create params h =
      keep server params h Keyword.create _ (create-states server params h)
  run_keyword-SessionStep Keyword.select params h = select-step server params h
  run_keyword-SessionStep Keyword.examine params h = examine-step server params h
  run_keyword-SessionStep Keyword.list params h =
      keep server params h Keyword.list _ (list-states server params h)
  run_keyword-SessionStep Keyword.delete params h =
      keep server params h Keyword.delete _ (delete-states server params h)
  run_keyword-SessionStep Keyword.rename params h =
      keep server params h Keyword.rename _ (rename-states server params h)
  run_keyword-SessionStep Keyword.lsub params h =
      keep server params h Keyword.lsub _ (lsub-states server params h)
  run_keyword-SessionStep Keyword.subscribe params h =
      keep server params h Keyword.subscribe _ (subscribe-states server params h)
  run_keyword-SessionStep Keyword.unsubscribe params h =
      keep server params h Keyword.unsubscribe _ (unsubscribe-states server params h)
  run_keyword-SessionStep Keyword.noop params h =
      keep server params h Keyword.noop _ (noop-states server params h)
  run_keyword-SessionStep Keyword.check params h =
      keep server params h Keyword.check _ (check-states server params h)
  run_keyword-SessionStep Keyword.capability params h =
      keep server params h Keyword.capability _ (capability-states server params h)
  run_keyword-SessionStep Keyword.search params h =
      keep server params h Keyword.search _ (search-states server params h)
  run_keyword-SessionStep Keyword.copy params h =
      keep server params h Keyword.copy _ (copy-states server params h)
  run_keyword-SessionStep Keyword.fetch params h =
      keep server params h Keyword.fetch _ (fetch-states server params h)
  run_keyword-SessionStep Keyword.store params h =
      keep server params h Keyword.store _ (store-states server params h)
  run_keyword-SessionStep Keyword.uid params h =
      keep server params h Keyword.uid _ (uid-states server params h)
  run_keyword-SessionStep Keyword.close params h = close-step server params h
  run_keyword-SessionStep Keyword.expunge params h =
      keep server params h Keyword.expunge _ (expunge-states server params h)
  run_keyword-SessionStep Keyword.append params h =
      keep server params h Keyword.append _ (append-states server params h)
  run_keyword-SessionStep Keyword.starttls params h =
      keep server params h Keyword.starttls _ (starttls-states server params h)
  run_keyword-SessionStep Keyword.status params h =
      keep server params h Keyword.status _ (status-states server params h)

  -- What `parse_command` leaves of the session.
  parse_command-states :
      (packet : Str) (parts : Parts) (h : Handler State)
      → (parse_command packet parts h).0.states ≡ h.states
  unfolding parse_command parse_token parse_rest
  parse_command-states packet parts h = ground arith

  still : (context : State) (s t : States) → t ≡ s → Move server s t
  still context s t e = rw e (move {params = []} {context = context} {k = Keyword.noop} stays)

  dispatch-Move :
      (o : Option (Option Keyword)) (payload : Str) (h : Handler State)
      → Move server h.states (final (dispatch server o payload h)).states
  unfolding dispatch flush_stream_to_connector
  dispatch-Move none payload h = still h.context _ _ refl
  dispatch-Move (some none) payload h = still h.context _ _ (ground arith)
  dispatch-Move (some (some k)) payload h =
      move (run_keyword-SessionStep k payload (reset_uid server h))

  perform_parts-Move :
      (o : Option Str) (parts : Parts) (h : Handler State)
      → Move server h.states (final (perform_parts server o parts h)).states
  unfolding perform_parts
  perform_parts-Move none parts h = still h.context _ _ refl
  perform_parts-Move (some command) parts h =
      dispatch-Move (find_command (lcase command) command_map)
        (payload_of server (find_part payload_part parts)) h

  perform_parsed-Move :
      (p : Handler State × Parts) → Move server p.0.states (final (perform_parsed server p)).states
  unfolding perform_parsed
  perform_parsed-Move p = elim (Bool-cases (is_error p.0.error)) [
    | inl e ↦ rw e (still p.0.context _ _ refl)
    | inr e ↦ rw e (perform_parts-Move (find_part command_part p.1) p.1 p.0)
  ]

  pub perform-Move :
      (packet : Str) (h : Handler State)
      → Move server h.states (final (perform server packet h)).states
  unfolding perform
  perform-Move [] h = still h.context _ _ refl
  perform-Move (c ∷ packet) h =
      subst (λ s. Move server s (final (perform server (c ∷ packet) h)).states)
        (parse_command-states (c ∷ packet) [] h)
        (perform_parsed-Move (parse_command (c ∷ packet) [] h))

  respond-states :
      (text : Str) (o : Outcome State) → (final (respond server text o)).states ≡ (final o).states
  unfolding respond flush_stream_to_connector format_packet_error
  respond-states text (threw what h) = refl
  respond-states text (done h ret) = ground arith

  take_request-Move :
      (text : Str) (h : Handler State)
      → Move server h.states (final (take_request server text h)).states
  unfolding take_request
  take_request-Move text h = elim (Bool-cases (is_append h.command)) [
    | inl e ↦ rw e (still h.context _ _ refl)
    | inr e ↦ rw (e, respond-states text (perform server text h)) (perform-Move text h)
  ]

  process_loop-Move :
      (pieces : List Str) (rdbuf text : Str) (h : Handler State)
      → Move server h.states (final (process_loop server pieces rdbuf text h).0).states
  unfolding process_loop
  process_loop-Move [] rdbuf text h = still h.context _ _ refl
  process_loop-Move (piece ∷ pieces) rdbuf text h = ground (
    arith,
    still h.context h.states h.states refl,
    process_loop-Move pieces (clear_front (recv piece rdbuf)) (text ++ c_str (recv piece rdbuf)) h,
    take_request-Move (text ++ c_str (recv piece rdbuf)) h,
  )

  -- Whatever pieces a request comes in, one run of `process` takes a step of the session.
  pub process-Move :
      (rdbuf_len : ℕ) (pieces : List Str) (h : Handler State)
      → Move server h.states (final (process server rdbuf_len pieces h).0).states
  unfolding process
  process-Move rdbuf_len pieces h = process_loop-Move pieces _ [] (error_packet no_packet_error h)
