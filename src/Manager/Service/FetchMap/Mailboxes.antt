-- ===== src/Manager/Service/FetchMap/Mailboxes.antt =====
-- m_fetchMap in the commands of chromatic_imap/chromatic_imap_mgr.cpp on a mailbox that they name.
use chromatic_imap_cplus_plu.Manager.Messages.{to_unsigned}
use chromatic_imap_cplus_plu.Handler.Strings.{ucase}
use chromatic_imap_cplus_plu.Manager.Database.{run, roll_back}
use chromatic_imap_cplus_plu.Manager.Service.FetchMap.{
  returned, folder_exists, folder_exists-table, roll_back, c_str, run_or_fail, atoi,
  with_folder-Keeps, run, run_or_fail-table, extract_quoted_string, check_folder_name,
  update_mailbox_info_by_db-table, Reply, Argument, true, Keeps,
}
use chromatic_imap_cplus_plu.Manager.Commands.Mailboxes.{
  names_root, folder_or_root, delete_folder, delete_found, select_folder, append_words,
  change_subscription, rename_words, delete_root, append_sized, open_mailbox, create_folder,
}
use chromatic_imap_cplus_plu.Text.{codes, Str}
use chromatic_imap_cplus_plu.Prelude.{false, Bool, refl, List, [], ◌∷◌, arith}
use chromatic_imap_cplus_plu.Manager.Types.{Manager, World, text}
use chromatic_imap_cplus_plu.Manager.Commands.Mailboxes

module _ (w : World) where
  open w use {Store, Row}

  open_mailbox-Keeps :
      (atom : Str) (read_only : Bool) (fmt : Str) → Keeps w (open_mailbox w atom read_only fmt)
  unfolding open_mailbox
  open_mailbox-Keeps atom read_only fmt m = update_mailbox_info_by_db-table w atom read_only m

  select_folder-Keeps :
      (mailbox : Str) (read_only : Bool) (fmt : Str)
      → Keeps w (select_folder w mailbox read_only fmt)
  unfolding select_folder
  select_folder-Keeps mailbox read_only fmt m =
      let atom = check_folder_name w mailbox m in
      ground (
        arith,
        folder_exists-table w atom m,
        open_mailbox-Keeps atom read_only fmt (folder_exists w atom m).1,
      )

  pub on_select-Keeps : (params fmt : Str) → Keeps w (Mailboxes.on_select w params fmt)
  unfolding Mailboxes.on_select
  on_select-Keeps params fmt m =
      ground (arith, select_folder-Keeps (extract_quoted_string params) false fmt m)

  pub on_examine-Keeps : (params fmt : Str) → Keeps w (Mailboxes.on_examine w params fmt)
  unfolding Mailboxes.on_examine
  on_examine-Keeps params fmt m = ground (arith, select_folder-Keeps params true fmt m)

  create_folder-Keeps : (atom : Str) → Keeps w (create_folder w atom)
  unfolding create_folder
  create_folder-Keeps atom m = grind (arith, run_or_fail-table)

  pub on_create-Keeps : (params fmt : Str) → Keeps w (Mailboxes.on_create w params fmt)
  unfolding Mailboxes.on_create
  on_create-Keeps params fmt m =
      let atom = check_folder_name w (extract_quoted_string params) m in
      ground
        (arith, folder_exists-table w atom m, create_folder-Keeps atom (folder_exists w atom m).1)

  delete_root-Keeps : (atom : Str) (found : List Row) → Keeps w (delete_root w atom found)
  unfolding delete_root delete_folder
  delete_root-Keeps atom [] m = grind (arith, run_or_fail-table)
  delete_root-Keeps atom (row ∷ rest) m = grind (arith, run_or_fail-table)

  delete_found-Keeps : (root : Bool) (atom : Str) → Keeps w (delete_found w root atom)
  unfolding delete_found delete_folder run roll_back
  delete_found-Keeps root atom m = grind (arith, run_or_fail-table, delete_root-Keeps)

  pub on_delete-Keeps : (params fmt : Str) → Keeps w (Mailboxes.on_delete w params fmt)
  unfolding Mailboxes.on_delete
  on_delete-Keeps params fmt m =
      let mailbox = extract_quoted_string params in
      let atom = folder_or_root w mailbox m in
      ground (
        arith,
        with_folder-Keeps w atom (delete_found w (names_root w mailbox m) atom)
            (delete_found-Keeps (names_root w mailbox m) atom) m,
      )

  abbrev renamed : Str → Str → Manager Store → Manager Store → List Argument
  renamed a b m next =
      text (c_str (check_folder_name w (extract_quoted_string a) m))
      ∷ text (c_str (extract_quoted_string b))
      ∷ text (c_str (ucase next.user))
      ∷ []

  abbrev renaming : Str → Str → Manager Store → Manager Store → Reply (Manager Store)
  renaming a b m next =
      run_or_fail w (codes "call rename_subscribe_folders( :1 , :2 , :3 )") (renamed a b m next)
        next

  pub rename_words-Keeps : (words : List Str) → Keeps w (rename_words w words)
  unfolding rename_words
  rename_words-Keeps [] m = refl
  rename_words-Keeps (a ∷ []) m = refl
  rename_words-Keeps (a ∷ b ∷ []) m =
      with_folder-Keeps w (check_folder_name w (extract_quoted_string a) m) (renaming a b m)
        (λ next.
          run_or_fail-table w (codes "call rename_subscribe_folders( :1 , :2 , :3 )")
            (renamed a b m next) next)
        m
  rename_words-Keeps (a ∷ b ∷ c ∷ words) m = refl

  pub change_subscription-Keeps :
      (command params : Str) → Keeps w (change_subscription w command params)
  unfolding change_subscription
  change_subscription-Keeps command params m =
      let atom = folder_or_root w (extract_quoted_string params) m in
      ground (
        arith,
        with_folder-Keeps w atom
            (λ next. run_or_fail w command (text (c_str atom) ∷ text (c_str next.user) ∷ []) next)
            (λ next.
              run_or_fail-table w command (text (c_str atom) ∷ text (c_str next.user) ∷ []) next)
            m,
      )

  append_sized-Keeps : (subatom : Str) → Keeps w (append_sized w subatom)
  unfolding append_sized
  append_sized-Keeps subatom m =
      let next = record m {
        append_rec = record m.append_rec { size = to_unsigned (atoi (c_str subatom)) };
      } in
      with_folder-Keeps w (check_folder_name w next.append_rec.mbx next) (returned true [])
        (λ q. refl) next

  pub append_words-Keeps : (words : List Str) → Keeps w (append_words w words)
  unfolding append_words
  append_words-Keeps [] m = refl
  append_words-Keeps (a ∷ []) m = refl
  append_words-Keeps (a ∷ b ∷ []) m = refl
  append_words-Keeps (a ∷ b ∷ c ∷ []) m = grind (arith, append_sized-Keeps)
  append_words-Keeps (a ∷ b ∷ c ∷ d ∷ words) m = refl
