-- ===== src/Manager/Service/FetchMap/Messages.antt =====
-- m_fetchMap in the other commands of chromatic_imap/chromatic_imap_mgr.cpp.
use chromatic_imap_cplus_plu.Manager.Responses.{status_response}
use chromatic_imap_cplus_plu.Manager.Messages.{read_mailbox_info, to_unsigned}
use chromatic_imap_cplus_plu.Flags.{stream_all, FlagsMethod, Flags}
use chromatic_imap_cplus_plu.Prelude.Int.{ℤ}
use chromatic_imap_cplus_plu.Manager.Service.FetchMap.{
  run_or_fail-table, read_mailbox_info-table, c_str, extract_quoted_string, Argument,
  with_folder-Keeps, table, ℕ, update_mailbox_info_by_db-table, true, Keeps,
}
use chromatic_imap_cplus_plu.Manager.Database.{run_or_fail, roll_back, run}
use chromatic_imap_cplus_plu.Manager.Commands.Account.{read_domain, noop_rows}
use chromatic_imap_cplus_plu.Manager.Commands.Listing.{list_mailboxes, answer_status}
use chromatic_imap_cplus_plu.Text.{codes, Str}
use chromatic_imap_cplus_plu.Manager.Commands.Messages.{
  set_message_flags_by_db, store_parsed, expunge_removed, finish_expunge, store_flags, remove_files,
  store_each, copy_words,
}
use chromatic_imap_cplus_plu.Manager.Folders.{
  check_folder_name, uncollected, collected, is_subscribed_by_db, enum_mailbox_list, Collected,
  collect_row, matching_mailbox, collect_rows, collect_mailboxes_by_db,
}
use chromatic_imap_cplus_plu.Prelude.{length, false, refl, List, [], ◌∷◌, arith, ◌≡◌, Bool}
use chromatic_imap_cplus_plu.Manager.Types.{Message, Mailbox, Manager, Table, World, text}
use chromatic_imap_cplus_plu.Handler.Types.{returned}
use chromatic_imap_cplus_plu.Manager.Commands.Account
use chromatic_imap_cplus_plu.Manager.Commands.Listing
use chromatic_imap_cplus_plu.Manager.Commands.Messages

module _ (w : World) where
  open w use {Store, Row}

  pub on_login-Keeps : (params fmt : Str) → Keeps w (Account.on_login w params fmt)
  unfolding Account.on_login read_domain run
  on_login-Keeps params fmt m = ground arith

  noop_rows-table :
      (found : List Row) (ostr : Str) (m : Manager Store)
      → table w (noop_rows w found ostr m).1 ≡ table w m
  unfolding noop_rows
  noop_rows-table [] ostr m = refl
  noop_rows-table (row ∷ rest) ostr m =
      grind (arith, noop_rows-table rest, update_mailbox_info_by_db-table w m.info.name false m)

  pub on_noop-Keeps : (params fmt : Str) → Keeps w (Account.on_noop w params fmt)
  unfolding Account.on_noop run roll_back
  on_noop-Keeps params fmt m = grind (arith, noop_rows-table)

  matching_mailbox-table :
      (username subatom atom : Str) (subscribed : Bool) (row : Row) (m : Manager Store)
      → table w (matching_mailbox w username subatom atom subscribed row m).1 ≡ table w m
  unfolding matching_mailbox is_subscribed_by_db run roll_back
  matching_mailbox-table username subatom atom subscribed row m = ground arith

  -- The manager that the collection of mailboxes leaves.
  abbrev collected_left : Collected (Manager Store) → Manager Store
  collected_left (collected mbxs m) = m
  collected_left (uncollected what m) = m

  collect_rows-table :
      (reg username : Str) (subscribed : Bool) (found : List Row) (obl : List Mailbox)
      (m : Manager Store)
      → table w (collected_left (collect_rows w reg username subscribed found obl m)) ≡ table w m
  unfolding collect_rows collect_row
  collect_rows-table reg username subscribed [] obl m = refl
  collect_rows-table reg username subscribed (row ∷ rest) obl m =
      grind (arith, collect_rows-table reg username subscribed rest, matching_mailbox-table)

  collect_mailboxes_by_db-table :
      (reg username : Str) (subscribed : Bool) (m : Manager Store)
      → table w (collected_left (collect_mailboxes_by_db w reg username subscribed m)) ≡ table w m
  unfolding collect_mailboxes_by_db run roll_back
  collect_mailboxes_by_db-table reg username subscribed m = grind (arith, collect_rows-table)

  list_mailboxes-Keeps :
      (params fmt : Str) (subscribed : Bool) → Keeps w (list_mailboxes w params fmt subscribed)
  unfolding list_mailboxes enum_mailbox_list
  list_mailboxes-Keeps params fmt subscribed m = grind (arith, collect_mailboxes_by_db-table)

  pub on_list-Keeps : (params fmt : Str) → Keeps w (Listing.on_list w params fmt)
  unfolding Listing.on_list
  on_list-Keeps params fmt m = ground (arith, list_mailboxes-Keeps params fmt false m)

  pub on_lsub-Keeps : (params fmt : Str) → Keeps w (Listing.on_lsub w params fmt)
  unfolding Listing.on_lsub
  on_lsub-Keeps params fmt m = ground (arith, list_mailboxes-Keeps params fmt true m)

  answer_status-Keeps :
      (mailbox : Str) (atoms : List Str) (fmt : Str) → Keeps w (answer_status w mailbox atoms fmt)
  unfolding answer_status
  answer_status-Keeps mailbox [] fmt m = refl
  answer_status-Keeps mailbox (a ∷ atoms) fmt m =
      let folder = check_folder_name w mailbox m in
      with_folder-Keeps w folder
        (λ next.
          let r = read_mailbox_info w folder next in
          returned true (w.format fmt (mailbox ∷ status_response r.0 (a ∷ atoms) ∷ [])) r.1)
        (read_mailbox_info-table w folder) m

  pub on_status-Keeps : (params fmt : Str) → Keeps w (Listing.on_status w params fmt)
  unfolding Listing.on_status
  on_status-Keeps params fmt m = grind (arith, answer_status-Keeps)

  abbrev copied : Str → Manager Store → List Argument
  copied a next =
      let chosen =
        Messages.requested next.uids (length next.messages) (extract_quoted_string a)
          next.messages in
      text (c_str next.info.name)
      ∷ text (c_str next.user)
      ∷ text (c_str (stream_all (Messages.copied_uid next) chosen))
      ∷ []

  abbrev copy_command : Str
  copy_command = codes "call copy_messages_from_subscribe_folder( :1 , :2 , :3 , :4 )"

  pub copy_words-Keeps : (words : List Str) → Keeps w (copy_words w words)
  unfolding copy_words
  copy_words-Keeps [] m = refl
  copy_words-Keeps (a ∷ []) m = refl
  copy_words-Keeps (a ∷ b ∷ []) m =
      with_folder-Keeps w (check_folder_name w (extract_quoted_string b) m)
        (λ next. run_or_fail w copy_command (copied a next) next)
        (λ next. run_or_fail-table w copy_command (copied a next) next) m
  copy_words-Keeps (a ∷ b ∷ c ∷ words) m = refl

  store_flags-Keeps :
      (msg_id : ℕ) (flags : Flags) (method : FlagsMethod) (silent : Bool)
      → Keeps w (store_flags w msg_id flags method silent)
  unfolding store_flags set_message_flags_by_db run roll_back
  store_flags-Keeps msg_id flags method silent m = ground arith

  store_each-Keeps :
      (numbers : List ℤ) (flags : Flags) (method : FlagsMethod) (silent : Bool) (ostr : Str)
      → Keeps w (store_each w numbers flags method silent ostr)
  unfolding store_each
  store_each-Keeps [] flags method silent ostr m = refl
  store_each-Keeps (n ∷ rest) flags method silent ostr m = grind (
    arith,
    store_flags-Keeps (to_unsigned n) flags method silent m,
    store_each-Keeps rest flags method silent,
  )

  pub on_store-Keeps : (params fmt : Str) → Keeps w (Messages.on_store w params fmt)
  unfolding Messages.on_store store_parsed
  on_store-Keeps params fmt m = grind (arith, store_each-Keeps)

  remove_files-table :
      (t : Table Message) (v : List ℤ) (m : Manager Store)
      → table w (remove_files w t v m).1 ≡ table w m
  unfolding remove_files
  remove_files-table [] v m = refl
  remove_files-table (entry ∷ rest) v m = grind (arith, remove_files-table rest)

  expunge_removed-Keeps : (v : List ℤ) → Keeps w (expunge_removed w v)
  unfolding expunge_removed
  expunge_removed-Keeps v m = ground (arith, update_mailbox_info_by_db-table w m.info.name false m)

  pub on_expunge-Keeps : (params fmt : Str) → Keeps w (Messages.on_expunge w params fmt)
  unfolding Messages.on_expunge finish_expunge run roll_back
  on_expunge-Keeps params fmt m = grind (arith, remove_files-table, expunge_removed-Keeps)
