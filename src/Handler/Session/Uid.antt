-- ===== src/Handler/Session/Uid.antt =====
-- UID in chromatic_imap/chromatic_imap_handler.cpp.
use chromatic_imap_cplus_plu.Prelude.Int.{pos}
use chromatic_imap_cplus_plu.Handler.Output.{output_ok_response}
use chromatic_imap_cplus_plu.Handler.Session.Refusal.{fetch-refused, needs_mailbox, meets}
use chromatic_imap_cplus_plu.Handler.Strings.{lcase}
use chromatic_imap_cplus_plu.Text.{substr, find_first_of, codes, Str}
use chromatic_imap_cplus_plu.Handler.Commands.Messages.{finish_uid, run_uid, on_uid}
use chromatic_imap_cplus_plu.Handler.Types.{invalid_state, Command, done, Handler, Server}
use chromatic_imap_cplus_plu.Prelude.{
  ℕ, ◌+◌, take, ◌≡◌, refl, ap, ◌∙◌, ◌∷◌, ◌++◌, some, true, false,
}

module _ (server : Server) where
  open server use {State, uids}

  -- What `on_uid` leaves of a handler before it runs the command within.
  abbrev pub under_uid : Handler State → Handler State
  under_uid h = record h { uid = true; context = uids true h.context }

  on_uid-found :
      (params : Str) (idx : ℕ) (h : Handler State)
      → find_first_of (codes " ") (lcase params) ≡ some idx
      → on_uid server params h
        ≡ finish_uid server (
            run_uid server
              (take idx (lcase params))
              (substr (idx + 1) (lcase params))
              (under_uid h))
  unfolding on_uid
  on_uid-found params idx h e = rw (e, on_uid) refl

  -- UID FETCH (in any case of its letters) without a login and a selected mailbox writes the OK
  -- of the UID, and sets the error of the FETCH that is refused; only UID and FETCH are noted
  -- beside.
  pub uid_fetch-refused :
      (params rest : Str) (h : Handler State)
      → lcase params ≡ codes "fetch" ++ 32 ∷ rest
      → meets needs_mailbox h.states ≡ false
      → on_uid server params h
        ≡ done
            (output_ok_response
              (codes "uid completed")
              (record (under_uid h) { command = Command.fetch; error = invalid_state }))
            (pos 0)
  unfolding on_uid run_uid finish_uid
  uid_fetch-refused params rest h e m =
      on_uid-found params 5 h (ap (find_first_of (codes " ")) e)
      ∙ rw (e, fetch-refused server rest (under_uid h) m) refl
