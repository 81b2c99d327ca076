-- ===== src/Manager/Commands/Mailboxes.antt =====
-- The commands of chromatic_imap/chromatic_imap_mgr.cpp on a mailbox that they name.
use chromatic_imap_cplus_plu.Prelude.{
  not, Bool, true, false, List, [], ◌∷◌, ◌++◌, Option, none, some, if◌then◌else◌,
}
use chromatic_imap_cplus_plu.Prelude.Int.{pos, eqb_ℤ}
use chromatic_imap_cplus_plu.Text.{
  Str, codes, same, find_first_of, find_last_of, erase_at, c_str, is_empty,
}
use chromatic_imap_cplus_plu.Text.Decimal.{atoi}
use chromatic_imap_cplus_plu.Flags.{str_to_mbx_flags}
use chromatic_imap_cplus_plu.Tokenizer.{safe_tokenize}
use chromatic_imap_cplus_plu.Handler.Strings.{lcase, ucase, extract_quoted_string}
use chromatic_imap_cplus_plu.Handler.Types.{Reply, returned, raised}
use chromatic_imap_cplus_plu.Manager.Types.{
  World, Manager, text, number, rows, failed, not_found, already_exists, success, access_denied,
  clear_record, no_flags,
}
use chromatic_imap_cplus_plu.Manager.Database.{run, roll_back, run_or_fail}
use chromatic_imap_cplus_plu.Manager.Folders.{
  root_of, slash, check_folder_name, folder_exists, with_folder,
}
use chromatic_imap_cplus_plu.Manager.Messages.{to_unsigned, update_mailbox_info_by_db}
use chromatic_imap_cplus_plu.Manager.Responses.{select_response}

abbrev pub no_mailbox : Str
no_mailbox = codes "mailbox does not exist"

abbrev pub denied : Str
denied = codes "access denied"

-- The mailbox INBOX of the user.
unfoldable pub inbox_of : Str → Str
unfolding ucase
inbox_of user = slash ∷ (ucase user ++ codes "/INBOX")

-- erase( first of `opening` , 1 ), then erase( last of `closing` , 1 ), where the text has both
unfoldable pub without_brackets : Str → Str → Str → Option Str
without_brackets opening closing str = elim (find_first_of opening str) [
  | none ↦ none
  | some idx ↦
      let opened = erase_at idx str in
      elim (find_last_of closing opened) [ none ↦ none | some jdx ↦ some (erase_at jdx opened) ]
]

module _ (w : World) where
  open w use {Store, Row, as_long, format}

  -- The end of `on_select` and of `on_examine`.
  unfoldable pub open_mailbox : Str → Bool → Str → Manager Store → Reply (Manager Store)
  unfolding update_mailbox_info_by_db select_response
  open_mailbox atom read_only fmt m =
      let next = update_mailbox_info_by_db w atom read_only m in
      returned true (format fmt (select_response next.info ∷ [])) next

  -- `isInbox` compares the name of the inbox with `atom`, which is not set yet.
  unfoldable pub select_folder : Str → Bool → Str → Manager Store → Reply (Manager Store)
  unfolding inbox_of check_folder_name folder_exists open_mailbox
  select_folder mailbox read_only fmt m =
      let is_inbox = same (inbox_of m.user) [] in
      let atom = check_folder_name w mailbox m in
      let r = folder_exists w atom m in
      elim r.0 [
        | not_found ↦
            if is_inbox then open_mailbox atom read_only fmt r.1 else raised no_mailbox [] r.1
        | already_exists ↦ open_mailbox atom read_only fmt r.1
        | success ↦ open_mailbox atom read_only fmt r.1
        | access_denied ↦ raised denied [] r.1
      ]

  unfoldable pub on_select : Str → Str → Manager Store → Reply (Manager Store)
  unfolding extract_quoted_string select_folder
  on_select params fmt m =
      if is_empty params
      then returned false [] m
      else select_folder (extract_quoted_string params) false fmt m

  unfoldable pub on_examine : Str → Str → Manager Store → Reply (Manager Store)
  unfolding select_folder
  on_examine params fmt m =
      if is_empty params then returned false [] m else select_folder params true fmt m

  unfoldable pub create_folder : Str → Manager Store → Reply (Manager Store)
  unfolding inbox_of ucase run_or_fail
  create_folder atom m =
      if same (inbox_of m.user) atom
      then raised denied [] m
      else run_or_fail w
          (codes "call insert_into_subscribe_folders( :1 , :2 , :3 , :4 , :5 , :6 , :7 )")
          (text (c_str (ucase m.user))
            ∷ text (codes "/")
            ∷ text (c_str atom)
            ∷ number (pos 1)
            ∷ number (pos 1)
            ∷ number (pos 0)
            ∷ number (pos 0)
            ∷ [])
          m

  unfoldable pub on_create : Str → Str → Manager Store → Reply (Manager Store)
  unfolding extract_quoted_string check_folder_name folder_exists create_folder
  on_create params fmt m =
      if is_empty params
      then returned false [] m
      else let atom = check_folder_name w (extract_quoted_string params) m in
        let r = folder_exists w atom m in
        elim r.0 [
          | not_found ↦ create_folder atom r.1
          | already_exists ↦ create_folder atom r.1
          | success ↦ raised (codes "mailbox already exists") [] r.1
          | access_denied ↦ raised denied [] r.1
        ]

  -- Is it the folder `/USER/` itself?
  unfoldable pub names_root : Str → Manager Store → Bool
  unfolding root_of
  names_root mailbox m = same mailbox (root_of m.user)

  unfoldable pub folder_or_root : Str → Manager Store → Str
  unfolding names_root check_folder_name
  folder_or_root mailbox m = if names_root mailbox m then mailbox else check_folder_name w mailbox m

  unfoldable pub delete_folder : Str → Manager Store → Reply (Manager Store)
  unfolding run_or_fail
  delete_folder atom m =
      run_or_fail w (codes "call delete_from_subscribe_folders( :1 )") (text (c_str atom) ∷ []) m

  -- The loop over the attributes of the user's root returns at its first row.
  unfoldable pub delete_root : Str → List Row → Manager Store → Reply (Manager Store)
  unfolding delete_folder run_or_fail
  delete_root atom [] m = delete_folder atom m
  delete_root atom (row ∷ rest) m =
      let is_public = as_long row (codes "public") in
      if eqb_ℤ (as_long row (codes "select_")) (pos 0)
      then raised denied [] m
      else run_or_fail w (codes "update_subscribe_folder_attributes( :1 , :2 , :3 , :4 , :5 )")
          (text (c_str atom)
            ∷ number (pos 0)
            ∷ number is_public
            ∷ number (as_long row (codes "marked"))
            ∷ number is_public
            ∷ [])
          m

  unfoldable pub delete_found : Bool → Str → Manager Store → Reply (Manager Store)
  unfolding inbox_of run roll_back delete_root delete_folder
  delete_found root atom m =
      if same (inbox_of m.user) atom
      then raised (codes "can't delete inbox") [] m
      else if not root
      then delete_folder atom m
      else let r =
          run w (codes "call get_subcribe_folder_attributes( :1 )") (text (c_str atom) ∷ []) m in
        elim r.0 [
          | rows found ↦ delete_root atom found r.1
          | failed what ↦ returned false [] (roll_back w r.1).1
        ]

  unfoldable pub on_delete : Str → Str → Manager Store → Reply (Manager Store)
  unfolding extract_quoted_string folder_or_root names_root with_folder delete_found
  on_delete params fmt m =
      if is_empty params
      then returned false [] m
      else let mailbox = extract_quoted_string params in
        let atom = folder_or_root mailbox m in
        with_folder w atom (delete_found (names_root mailbox m) atom) m

  unfoldable pub rename_words : List Str → Manager Store → Reply (Manager Store)
  unfolding extract_quoted_string check_folder_name with_folder run_or_fail ucase
  rename_words (old ∷ new ∷ []) m =
      let atom = check_folder_name w (extract_quoted_string old) m in
      with_folder w atom
        (λ next.
          run_or_fail w (codes "call rename_subscribe_folders( :1 , :2 , :3 )")
            (text (c_str atom)
              ∷ text (c_str (extract_quoted_string new))
              ∷ text (c_str (ucase next.user))
              ∷ [])
            next)
        m
  rename_words _ m = returned false [] m

  unfoldable pub on_rename : Str → Str → Manager Store → Reply (Manager Store)
  unfolding safe_tokenize rename_words
  on_rename params fmt m = rename_words (safe_tokenize params (codes " ")) m

  -- What SUBSCRIBE and UNSUBSCRIBE share: they differ in the procedure.
  unfoldable pub change_subscription : Str → Str → Manager Store → Reply (Manager Store)
  unfolding extract_quoted_string folder_or_root with_folder run_or_fail
  change_subscription command params m =
      if is_empty params
      then returned false [] m
      else let atom = folder_or_root (extract_quoted_string params) m in
        with_folder w atom
          (λ next. run_or_fail w command (text (c_str atom) ∷ text (c_str next.user) ∷ []) next) m

  unfoldable pub on_subscribe : Str → Str → Manager Store → Reply (Manager Store)
  unfolding change_subscription
  on_subscribe params fmt m =
      change_subscription (codes "call insert_subscription( :1 , :2 )") params m

  unfoldable pub on_unsubscribe : Str → Str → Manager Store → Reply (Manager Store)
  unfolding change_subscription
  on_unsubscribe params fmt m =
      change_subscription (codes "call delete_subscription( :1 , :2 )") params m

  -- The end of `on_append`, for the size between its braces.
  unfoldable pub append_sized : Str → Manager Store → Reply (Manager Store)
  unfolding atoi to_unsigned check_folder_name with_folder
  append_sized subatom m =
      let next = record m {
        append_rec = record m.append_rec { size = to_unsigned (atoi (c_str subatom)) };
      } in
      with_folder w (check_folder_name w next.append_rec.mbx next) (returned true []) next

  unfoldable pub append_words : List Str → Manager Store → Reply (Manager Store)
  unfolding extract_quoted_string lcase without_brackets str_to_mbx_flags append_sized
  append_words (mbx ∷ flags ∷ size ∷ []) m =
      let named = record m {
        append_rec = record m.append_rec { mbx = extract_quoted_string mbx };
      } in
      elim (without_brackets (codes "(") (codes ")") (lcase flags)) [
        | none ↦ returned false [] named
        | some str_flags ↦
            let with_flags = record named {
              append_rec = record named.append_rec {
                flags = str_to_mbx_flags (lcase str_flags) no_flags;
              };
            } in
            elim (without_brackets (codes "{") (codes "}") size) [
              | none ↦ returned false [] with_flags
              | some subatom ↦ append_sized subatom with_flags
            ]
      ]
  append_words _ m = returned false [] m

  unfoldable pub on_append : Str → Str → Manager Store → Reply (Manager Store)
  unfolding safe_tokenize append_words
  on_append params fmt m =
      append_words (safe_tokenize params (codes " "))
        (record m { append_rec = clear_record m.append_rec })
