-- ===== src/Manager/Commands/Account/Wire.antt =====
-- LOGIN from the bytes that a client sends (chromatic_imap/chromatic_imap_handler.cpp) to the manager of
-- chromatic_imap/chromatic_imap_mgr.cpp and back.
use chromatic_imap_cplus_plu.Prelude.{
  ℕ, ◌≡◌, ◌∙◌, refl, ap, true, false, Bool-cases, inl, inr, List, [], ◌∷◌, ◌++◌, append-nil,
  append_assoc, some, arith,
}
use chromatic_imap_cplus_plu.Prelude.Int.{ℤ, pos}
use chromatic_imap_cplus_plu.Text.{Str, codes}
use chromatic_imap_cplus_plu.Handler.Types.{
  Server, Handler, done, Reply, Command, authenticated, add_state, no_packet_error,
}
use chromatic_imap_cplus_plu.Handler.Strings.{lcase, extract_quoted_string}
use chromatic_imap_cplus_plu.Handler.Output.{
  output_ok_response, update_connection_state, flush_stream_to_connector, format_packet_error,
}
use chromatic_imap_cplus_plu.Handler.Commands.{set_command, after}
use chromatic_imap_cplus_plu.Handler.Commands.Account
use chromatic_imap_cplus_plu.Handler.Dispatch.{Keyword, run_keyword}
use chromatic_imap_cplus_plu.Handler.Dispatch.Keywords.{received}
use chromatic_imap_cplus_plu.Handler.Parse.{error_packet}
use chromatic_imap_cplus_plu.Handler.Parse.RoundTrip.{print_command}
use chromatic_imap_cplus_plu.Handler.Process.{process, respond}
use chromatic_imap_cplus_plu.Handler.Process.Answers.{
  blank, Readable, NamesCommand, Ready, process-print, respond-sends,
}
use chromatic_imap_cplus_plu.Handler.Session.{final}
use chromatic_imap_cplus_plu.Manager.Types.{World, Manager}
use chromatic_imap_cplus_plu.Manager.Fetch.Mime.{Mime}
use chromatic_imap_cplus_plu.Manager.Service.{manager_server}
use chromatic_imap_cplus_plu.Manager.Commands.Account.{read_domain}
use chromatic_imap_cplus_plu.Manager.Commands.Account.Login.{Word, on_login-any_password}

module _ (server : Server) where
  open server use {State}

  -- The answer keeps what the command has left of the states and of the manager.
  respond-keeps :
      (text : Str) (h : Handler State) (ret : ℤ)
      → ((final (respond server text (done h ret))).states ≡ h.states)
        × ((final (respond server text (done h ret))).context ≡ h.context)
  unfolding respond flush_stream_to_connector format_packet_error
  respond-keeps text h ret = ground arith

  -- The handler that has noted an accepted LOGIN.
  abbrev logged : Handler State → State → Handler State
  unfolding output_ok_response update_connection_state
  logged h c =
      output_ok_response (codes "login completed")
        (update_connection_state add_state authenticated (after [] c (set_command Command.login h)))

  logged-sends :
      (text : Str) (h : Handler State) (c : State)
      → h.silent ≡ false
      → h.stream ≡ []
      → h.error ≡ no_packet_error
      → (final (respond server text (done (logged h c) (pos 0)))).sent
        ≡ h.sent ++ (h.token ++ codes " OK login completed\r\n")
  unfolding output_ok_response update_connection_state
  logged-sends text h c q st e =
      respond-sends server text (logged h c) (pos 0)
      ∙ rw (q, st, e)
          (elim (Bool-cases (blank server text)) [
            | inl b ↦ rw b (simp (append_assoc, append-nil))
            | inr b ↦ rw b (simp (append_assoc, append-nil))
          ])

  logged-authenticated : (h : Handler State) (c : State) → (logged h c).states authenticated ≡ true
  unfolding output_ok_response update_connection_state
  logged-authenticated h c = refl

module _ (w : World) where
  open w use {Store}

  -- What `process` leaves for a LOGIN with the manager behind it.
  abbrev pub after_login :
      (library : Mime Store) (undefined : Manager Store → Reply (Manager Store)) (n : ℕ)
      (token word user password : Str) (pieces : List Str)
      → Handler (Manager Store)
      → Handler (Manager Store)
  after_login library undefined n token word user password pieces h =
      final
        (process (manager_server w library undefined) n
          (print_command token word (some (user ++ 32 ∷ password)) ∷ pieces) h).0

  -- A client that is not logged in and sends a LOGIN with two words gets an OK, whatever the second
  -- word is, and is authenticated; the manager has taken the first word as its user. The words are without
  -- NUL and blanks, and the line is as for a refused command.
  pub process-any_password :
      (library : Mime Store) (undefined : Manager Store → Reply (Manager Store)) (n : ℕ)
      (token word user password : Str) (pieces : List Str) (h : Handler (Manager Store))
      → Readable n (print_command token word (some (user ++ 32 ∷ password)))
      → NamesCommand Keyword.login token word (some (user ++ 32 ∷ password))
      → Ready h
      → Word user
      → Word password
      → h.states authenticated ≡ false
      → ((after_login library undefined n token word user password pieces h).sent
          ≡ h.sent ++ (token ++ codes " OK login completed\r\n"))
        × ((after_login library undefined n token word user password pieces h).states authenticated
            ≡ true)
        × ((after_login library undefined n token word user password pieces h).context
            ≡ read_domain w
                (record h.context { uids = false; user = lcase (extract_quoted_string user) }))
  unfolding run_keyword Account.answer_login
  process-any_password library undefined n token word user password pieces h r names ready u p e =
      let server = manager_server w library undefined in
      let line = print_command token word (some (user ++ 32 ∷ password)) in
      let h' = received server token word (error_packet no_packet_error h) in
      let c = read_domain w (record h'.context { user = lcase (extract_quoted_string user) }) in
      let runs =
        process-print server n Keyword.login token word (some (user ++ 32 ∷ password)) pieces h r
          names ready.2 in
      let answers = on_login-any_password w library undefined user password h' u p e in
      let kept = respond-keeps server line (logged server h' c) (pos 0) in
      rw (runs, answers)
        (
          logged-sends server line h' c ready.0 ready.1 refl,
          ap (λ f. f authenticated) kept.0 ∙ logged-authenticated server h' c,
          kept.1,
        )
