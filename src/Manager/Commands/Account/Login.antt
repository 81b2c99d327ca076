-- ===== src/Manager/Commands/Account/Login.antt =====
-- LOGIN, from the handler of chromatic_imap/chromatic_imap_handler.cpp to the manager of
-- chromatic_imap/chromatic_imap_mgr.cpp.
use chromatic_imap_cplus_plu.Prelude.{◌≡◌, refl, ap, true, false, [], ◌∷◌, ◌++◌, arith}
use chromatic_imap_cplus_plu.Text.{Str, codes, is_empty}
use chromatic_imap_cplus_plu.Tokenizer.Laws.{IsToken, NoNul, safe_tokenize-join}
use chromatic_imap_cplus_plu.Handler.Types.{Handler, Reply, returned, Command}
use chromatic_imap_cplus_plu.Handler.Strings.{lcase, extract_quoted_string}
use chromatic_imap_cplus_plu.Handler.Commands.{set_command, is_authenticated}
use chromatic_imap_cplus_plu.Handler.Commands.Account
use chromatic_imap_cplus_plu.Manager.Types.{World, Manager}
use chromatic_imap_cplus_plu.Manager.Fetch.Mime.{Mime}
use chromatic_imap_cplus_plu.Manager.Service.{manager_server, serve_manager}
use chromatic_imap_cplus_plu.Manager.Commands.Account.{
  on_login, pair_from_tuple, pair_of_words, read_domain,
}

-- A word of a LOGIN.
abbrev pub Word : Str → Type 0
Word s = IsToken (codes " ") s × NoNul s

pub pair_from_tuple-words :
    (user password : Str)
    → Word user
    → Word password
    → pair_from_tuple (user ++ 32 ∷ password) ≡ (user, password)
unfolding pair_from_tuple pair_of_words
pair_from_tuple-words user password u p = ap pair_of_words (
    safe_tokenize-join (codes " ") 32 refl (user ∷ password ∷ []) (ground arith) (u.0, (p.0, tt))
      (u.1, (p.1, tt)))

Word-is_empty : (s : Str) → Word s → is_empty s ≡ false
Word-is_empty [] h = absurd (h.0.0 refl)
Word-is_empty (c ∷ s) h = refl

module _ (w : World) where
  open w use {Store}

  on_login-words :
      (user password fmt : Str) (m : Manager Store)
      → Word user
      → Word password
      → on_login w (user ++ 32 ∷ password) fmt m
        ≡ returned true [] (read_domain w (record m { user = lcase (extract_quoted_string user) }))
  unfolding on_login
  on_login-words user password fmt m u p =
      rw (pair_from_tuple-words user password u p, Word-is_empty user u, Word-is_empty password p)
        refl

  -- A handler that is not logged in and has the manager behind it accepts every LOGIN with two words,
  -- without NUL and blanks: what it does then is the same whatever the second word, the password, is.
  pub on_login-any_password :
      (library : Mime Store) (undefined : Manager Store → Reply (Manager Store))
      (user password : Str) (h : Handler (Manager Store))
      → Word user
      → Word password
      → is_authenticated (set_command Command.login h) ≡ false
      → Account.on_login (manager_server w library undefined) (user ++ 32 ∷ password) h
        ≡ Account.answer_login
            (manager_server w library undefined)
            (returned true []
              (read_domain w (record h.context { user = lcase (extract_quoted_string user) })))
            (set_command Command.login h)
  unfolding Account.on_login serve_manager
  on_login-any_password library undefined user password h u p e = rw e (
      ap
        (λ r.
          Account.answer_login (manager_server w library undefined) r (set_command Command.login h))
        (on_login-words user password [] h.context u p))
