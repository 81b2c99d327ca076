-- ===== src/Manager/Folders.antt =====
-- Mailbox names in chromatic_imap/chromatic_imap_mgr.cpp: how they are spelled in the database, whether
-- they exist, and which of them a LIST names.
pub mod Names
pub mod Patterns
use chromatic_imap_cplus_plu.Prelude.{
  ℕ, ◌+◌, Bool, true, false, not, ◌&&◌, List, [], ◌∷◌, ◌++◌, Option, none, some, ◌==◌,
  if◌then◌else◌, length, drop,
}
use chromatic_imap_cplus_plu.Prelude.Int.{ℤ, pos, negsuc, eqb_ℤ, ltb_ℤ}
use chromatic_imap_cplus_plu.Text.{Str, codes, same, find, one_of, c_str}
use chromatic_imap_cplus_plu.Flags.{
  MailboxAttribute, Attributes, no_inferiors, no_select, marked, unmarked,
}
use chromatic_imap_cplus_plu.Handler.Strings.{ucase}
use chromatic_imap_cplus_plu.Handler.Types.{Reply, returned, raised}
use chromatic_imap_cplus_plu.Manager.Types.{
  World, Manager, Argument, text, number, rows, failed, Mailbox, MailboxResult, not_found, success,
  already_exists, access_denied,
}
use chromatic_imap_cplus_plu.Manager.Database.{run, roll_back, last_long}

-- '/', and the folder `/USER/` of a user.
abbrev pub slash : ℕ
slash = 47

unfoldable pub starts_with_slash : Str → Bool
starts_with_slash [] = false
starts_with_slash (c ∷ s) = c == slash

unfoldable pub root_of : Str → Str
root_of user = slash ∷ (ucase user ++ slash ∷ [])

-- The `regEx` of `enum_mailbox_list`.
abbrev pub escaped : Str
escaped = codes "+-.$()"

abbrev pub pattern_piece : ℕ → Str
pattern_piece c =
    if c == b'*'
    then codes ".*"
    else if c == b'%'
    then codes "[^/]*"
    else if one_of escaped c
    then b'\\' ∷ c ∷ []
    else c ∷ []

abbrev pub pattern_pieces : Str → Str
pattern_pieces [] = []
pattern_pieces (c ∷ pattern) = pattern_piece c ++ pattern_pieces pattern

unfoldable pub pattern_regex : Str → Str → Str
pattern_regex reference criteria = b'^' ∷ (pattern_pieces (reference ++ criteria) ++ b'$' ∷ [])

abbrev attribute_index : MailboxAttribute → ℕ
attribute_index no_inferiors = 0
attribute_index no_select = 1
attribute_index marked = 2
attribute_index unmarked = 3

-- The attributes that the columns `select_`, `inferiors` and `marked` of a row give.
unfoldable pub attributes_of : ℤ → ℤ → ℤ → Attributes
attributes_of select inferiors mark no_inferiors = eqb_ℤ inferiors (pos 0)
attributes_of select inferiors mark no_select = eqb_ℤ select (pos 0)
attributes_of select inferiors mark marked = not (eqb_ℤ mark (pos 0))
attributes_of select inferiors mark unmarked = eqb_ℤ mark (pos 0)

-- `collect_mailboxes_by_db` gives its mailboxes, or raises an error.
pub data Collected (S : Type 0) : Type 0 where
  collected : List Mailbox → S → Collected S
  uncollected : Str → S → Collected S

module _ (w : World) where
  open w use {Store, Row, as_long, as_string, regex_match, unset_long, unset_result}

  unfoldable pub check_folder_name : Str → Manager Store → Str
  unfolding starts_with_slash
  check_folder_name folder m = ucase (
      if starts_with_slash folder
      then slash ∷ (m.user ++ folder)
      else slash ∷ (m.user ++ slash ∷ folder))

  abbrev pub exists_result : ℤ → MailboxResult
  exists_result exists =
      if eqb_ℤ exists (pos 0)
      then not_found
      else if eqb_ℤ exists (pos 1)
      then success
      else if eqb_ℤ exists (negsuc 0)
      then access_denied
      else unset_result

  unfoldable pub folder_exists : Str → Manager Store → MailboxResult × Manager Store
  unfolding run roll_back
  folder_exists folder m =
      let r = run w (codes "call subscribe_folder_exists( :1 )") (text (c_str folder) ∷ []) m in
      elim r.0 [
        | rows found ↦ (exists_result (last_long w (codes "folder_exists") unset_long found), r.1)
        | failed what ↦ (access_denied, (roll_back w r.1).1)
      ]

  unfoldable pub is_subscribed_by_db : Str → Str → Manager Store → Bool × Manager Store
  unfolding run roll_back
  is_subscribed_by_db folder nickname m =
      let r =
        run w (codes "call user_is_subscribed_to_folder( :1 , :2 )")
          (text (c_str folder) ∷ text (c_str nickname) ∷ []) m in
      elim r.0 [
        | rows found ↦ (ltb_ℤ (pos 0) (last_long w (codes "does_exist") (pos 0) found), r.1)
        | failed what ↦ (false, (roll_back w r.1).1)
      ]

  -- `atom`, for a row whose folder has the prefix at `idx`.
  abbrev pub name_below : Str → ℕ → Str → Str
  name_below prefix idx subatom =
      if same subatom prefix then subatom else drop (idx + length prefix) subatom

  -- A mailbox whose name matches, unless only those subscribed to are asked for.
  unfoldable pub matching_mailbox :
      Str → Str → Str → Bool → Row → Manager Store → List Mailbox × Manager Store
  unfolding is_subscribed_by_db attributes_of
  matching_mailbox username subatom atom subscribed row m =
      let r = is_subscribed_by_db subatom username m in
      if not r.0 && subscribed then ([], r.1) else (
        record {
          name = atom;
          attributes =
              attributes_of (as_long row (codes "select_")) (as_long row (codes "inferiors"))
                (as_long row (codes "marked"));
          subscribed = r.0;
        }
            ∷ [],
        r.1,
      )

  -- The body of the loop: what a row adds, or nothing where the expression is refused.
  unfoldable pub collect_row :
      Str → Str → Bool → Row → Manager Store → Option (List Mailbox × Manager Store)
  unfolding root_of
  collect_row reg username subscribed row m =
      let prefix = root_of username in
      let subatom = as_string row (codes "folder_name") in
      elim (find prefix subatom) [
        | none ↦ some ([], m)
        | some idx ↦
            let atom = name_below prefix idx subatom in
            elim (regex_match (c_str reg) (c_str atom)) [
              | none ↦ none
              | some false ↦ some ([], m)
              | some true ↦ some (matching_mailbox username subatom atom subscribed row m)
            ]
      ]

  unfoldable pub collect_rows :
      Str → Str → Bool → List Row → List Mailbox → Manager Store → Collected (Manager Store)
  collect_rows reg username subscribed [] obl m = collected obl m
  collect_rows reg username subscribed (row ∷ rest) obl m =
      elim (collect_row reg username subscribed row m) [
        | none ↦ uncollected (codes "Unspecified error in collecting mailboxes ...") m
        | some r ↦ collect_rows reg username subscribed rest (obl ++ r.0) r.1
      ]

  unfoldable pub collect_mailboxes_by_db :
      Str → Str → Bool → Manager Store → Collected (Manager Store)
  unfolding run roll_back collect_rows
  collect_mailboxes_by_db reg username subscribed m =
      let r =
        run w (codes "call get_mail_folders_by_user_moniker_ex( :1 )") (text (c_str username) ∷ [])
          m in
      elim r.0 [
        | rows found ↦ collect_rows reg username subscribed found [] r.1
        | failed what ↦
            let back = roll_back w r.1 in
            if back.0 then uncollected what back.1 else collected [] back.1
      ]

  unfoldable pub enum_mailbox_list :
      Str → Str → Str → Bool → Manager Store → Collected (Manager Store)
  unfolding pattern_regex collect_mailboxes_by_db
  enum_mailbox_list username reference criteria subscribed m =
      collect_mailboxes_by_db (pattern_regex reference criteria) username subscribed m

  -- The test that every command on a named folder makes before it goes on.
  unfoldable pub with_folder :
      Str → (Manager Store → Reply (Manager Store)) → Manager Store → Reply (Manager Store)
  unfolding folder_exists
  with_folder atom next m =
      let r = folder_exists atom m in
      elim r.0 [
        | not_found ↦ raised (codes "mailbox does not exist") [] r.1
        | already_exists ↦ next r.1
        | success ↦ next r.1
        | access_denied ↦ raised (codes "access denied") [] r.1
      ]
