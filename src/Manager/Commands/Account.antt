-- ===== src/Manager/Commands/Account.antt =====
-- The commands of chromatic_imap/chromatic_imap_mgr.cpp that are about the session: login and those that
-- need no mailbox by name.
pub mod Login
pub mod Wire
use chromatic_imap_cplus_plu.Prelude.{
  ◌+◌, ◌||◌, Bool, true, false, List, [], ◌∷◌, ◌++◌, none, some, if◌then◌else◌, length, take, drop,
}
use chromatic_imap_cplus_plu.Prelude.Int.{pos, eqb_ℤ}
use chromatic_imap_cplus_plu.Text.{Str, codes, find, c_str, is_empty}
use chromatic_imap_cplus_plu.Text.Decimal.{show}
use chromatic_imap_cplus_plu.Tokenizer.{safe_tokenize}
use chromatic_imap_cplus_plu.Handler.Strings.{lcase, extract_quoted_string}
use chromatic_imap_cplus_plu.Handler.Types.{Reply, returned}
use chromatic_imap_cplus_plu.Manager.Types.{
  World, Manager, Argument, text, number, rows, failed, show_long,
}
use chromatic_imap_cplus_plu.Manager.Database.{run, roll_back, last_string}
use chromatic_imap_cplus_plu.Manager.Messages.{update_mailbox_info_by_db}
use chromatic_imap_cplus_plu.Manager.Responses.{line_end}

unfoldable pub pair_of_words : List Str → Str × Str
pair_of_words (a ∷ b ∷ []) = (a, b)
pair_of_words _ = ([], [])

unfoldable pub pair_from_tuple : Str → Str × Str
unfolding safe_tokenize pair_of_words
pair_from_tuple tuple = pair_of_words (safe_tokenize tuple (codes " "))

-- The part of the domain name that `on_login` keeps.
unfoldable pub domain_of : Str → Str
domain_of str = elim (find (codes ",") str) [
  | none ↦ str
  | some idx ↦
      let first = take idx str in
      elim (find (codes "dc=") first) [ none ↦ first | some jdx ↦ drop (jdx + 3) first ]
]

module _ (w : World) where
  open w use {Store, Row, as_long, format}

  -- Any exception of the `try` block is dropped, and the domain stays.
  unfoldable pub read_domain : Manager Store → Manager Store
  unfolding run domain_of
  read_domain m =
      let r = run w (codes "call get_user_domain_name_ex( :1 )") (text (c_str m.user) ∷ []) m in
      elim r.0 [
        | rows found ↦ record r.1 {
          user_domain = domain_of (last_string w (codes "domain_name") [] found);
        }
        | failed what ↦ r.1
      ]

  unfoldable pub on_login : Str → Str → Manager Store → Reply (Manager Store)
  unfolding pair_from_tuple read_domain lcase extract_quoted_string
  on_login params fmt m =
      let pr = pair_from_tuple params in
      if is_empty pr.0 || is_empty pr.1
      then returned false [] m
      else returned true [] (read_domain (record m { user = lcase (extract_quoted_string pr.0) }))

  unfoldable pub on_logout : Str → Str → Manager Store → Reply (Manager Store)
  on_logout params fmt m = returned true [] m

  unfoldable pub on_authenticate : Str → Str → Manager Store → Reply (Manager Store)
  on_authenticate params fmt m = returned true [] m

  unfoldable pub on_check : Str → Str → Manager Store → Reply (Manager Store)
  on_check params fmt m = returned true [] m

  unfoldable pub on_uid : Str → Str → Manager Store → Reply (Manager Store)
  on_uid params fmt m = returned true [] m

  unfoldable pub on_starttls : Str → Str → Manager Store → Reply (Manager Store)
  on_starttls params fmt m = returned true [] m

  unfoldable pub on_capability : Str → Str → Manager Store → Reply (Manager Store)
  on_capability params fmt m = returned true (format fmt (codes "IMAP4rev1" ∷ [])) m

  -- What `on_noop` writes of the mailbox that it has read again.
  unfoldable pub noop_text : Manager Store → Str
  unfolding show
  noop_text m =
      codes "* "
      ++ show (length m.messages)
      ++ codes " exists"
      ++ line_end
      ++ codes "* "
      ++ show_long m.info.recent
      ++ codes " recent"
      ++ line_end

  unfoldable pub noop_rows : List Row → Str → Manager Store → Str × Manager Store
  unfolding update_mailbox_info_by_db noop_text
  noop_rows [] ostr m = (ostr, m)
  noop_rows (row ∷ rest) ostr m =
      let fresh = update_mailbox_info_by_db w m.info.name false m in
      let none_new = eqb_ℤ (as_long row (codes "msg_count")) (pos 0) in
      noop_rows rest (if none_new then ostr else ostr ++ noop_text fresh)
        (if none_new then m else fresh)

  unfoldable pub on_noop : Str → Str → Manager Store → Reply (Manager Store)
  unfolding run roll_back noop_rows
  on_noop params fmt m =
      let r =
        run w (codes "call has_new_messages_by_folder_ex( :1 , :2 )")
          (text (c_str m.info.name) ∷ number (pos (length m.messages)) ∷ []) m in
      elim r.0 [
        | rows found ↦ let q = noop_rows found [] r.1 in returned true q.0 q.1
        | failed what ↦ returned false [] (roll_back w r.1).1
      ]
