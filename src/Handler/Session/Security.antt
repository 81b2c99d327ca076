-- ===== src/Handler/Session/Security.antt =====
-- What holds in every session that chromatic_imap/chromatic_imap_handler.cpp can have with a client,
-- whatever the client sends and whatever the manager answers.
use chromatic_imap_cplus_plu.Handler.Process.{process}
use chromatic_imap_cplus_plu.Handler.Session.Refines.{process-Move}
use chromatic_imap_cplus_plu.Handler.Session.{
  Move-authenticated, final, Str, Move-Consistent, Consistent,
}
use chromatic_imap_cplus_plu.Handler.Session.Login.{Accepted}
use chromatic_imap_cplus_plu.Handler.Parse.{error_packet}
use chromatic_imap_cplus_plu.Handler.Types.{no_packet_error}
use chromatic_imap_cplus_plu.Prelude.{List, ℕ, ◌≡◌, true, false}
use chromatic_imap_cplus_plu.Handler.Types.{Server, authenticated, selected, Handler}

module _ (server : Server) where
  open server use {State}

  -- The handlers that runs of `process` reach from a new one, which is in no state.
  pub data Session : Handler State → Type 0 where
    opens : {h : Handler State} → h.states ≡ (λ t. false) → Session h
    receives :
        {h : Handler State} (rdbuf_len : ℕ) (pieces : List Str)
        → Session h
        → Session (final (process server rdbuf_len pieces h).0)

  no_states : (h : Handler State) → h.states ≡ (λ t. false) → Consistent server h.states
  no_states h e = rw e (λ x. x)

  -- In every session, a selected mailbox means an authenticated client.
  pub Session-Consistent :
      {h : Handler State} → Session h → h.states selected ≡ true → h.states authenticated ≡ true
  Session-Consistent (opens {h} e) = no_states h e
  Session-Consistent (receives {h} rdbuf_len pieces session) =
      Move-Consistent server (process-Move server rdbuf_len pieces h) (Session-Consistent session)

  -- The sessions in which the manager has accepted a LOGIN: in one of their runs, for a client that was not
  -- authenticated, with parameters that the run has read, from the state in which the manager was then to
  -- the one in which the run has left it.
  pub data LoggedIn : Handler State → Type 0 where
    accepts :
        {h : Handler State} (rdbuf_len : ℕ) (pieces : List Str)
        → Session h
        → h.states authenticated ≡ false
        → Accepted server
            (error_packet no_packet_error h)
            (final (process server rdbuf_len pieces h).0)
        → LoggedIn (final (process server rdbuf_len pieces h).0)
    goes_on :
        {h : Handler State} (rdbuf_len : ℕ) (pieces : List Str)
        → LoggedIn h
        → LoggedIn (final (process server rdbuf_len pieces h).0)

  -- A client that is authenticated stays so over every run of `process`, whatever pieces it reads
  -- and whatever the manager answers.
  pub process-authenticated :
      (rdbuf_len : ℕ) (pieces : List Str) (h : Handler State)
      → h.states authenticated ≡ true
      → (final (process server rdbuf_len pieces h).0).states authenticated ≡ true
  process-authenticated rdbuf_len pieces h =
      Move-authenticated server (process-Move server rdbuf_len pieces h)
