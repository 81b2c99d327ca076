-- ===== src/Manager/Service/FetchMap.antt =====
-- The table m_fetchMap of chromatic_imap/chromatic_imap_mgr.cpp, which no command fills.
pub mod Mailboxes
pub mod Messages
pub mod Invariant
use chromatic_imap_cplus_plu.Handler.Strings.{extract_quoted_string}
use chromatic_imap_cplus_plu.Text.Decimal.{show, atoi}
use chromatic_imap_cplus_plu.Prelude.{
  true, Bool, suc, ℕ, ◌≡◌, refl, sym, ap, ◌∙◌, List, [], ◌∷◌, arith,
}
use chromatic_imap_cplus_plu.Text.{c_str, Str}
use chromatic_imap_cplus_plu.Handler.Types.{
  on_delete, on_create, on_examine, on_select, Reply, returned, raised, Service,
}
use chromatic_imap_cplus_plu.Manager.Types.{text, insert_entry, World, Manager, Argument}
use chromatic_imap_cplus_plu.Manager.Database.{run, roll_back, run_or_fail}
use chromatic_imap_cplus_plu.Manager.Folders.{check_folder_name, folder_exists, with_folder}
use chromatic_imap_cplus_plu.Manager.Messages.{
  next_max_uid, message_of, fill_rows, fill_message_list_by_db, update_mailbox_info_by_db,
  read_mailbox_info,
}
use chromatic_imap_cplus_plu.Manager.Fetch.Requests.{FetchConst}

-- The manager that a command leaves.
abbrev pub left : {S : Type 0} → Reply S → S
left (returned ok out m) = m
left (raised what out m) = m

module _ (w : World) where
  open w use {Store, Row}

  abbrev pub table : Manager Store → List (FetchConst × Str)
  table m = m.fetch_map

  pub folder_exists-table :
      (atom : Str) (m : Manager Store) → table (folder_exists w atom m).1 ≡ table m
  unfolding folder_exists run roll_back
  folder_exists-table atom m = ground arith

  pub run_or_fail-table :
      (command : Str) (arguments : List Argument) (m : Manager Store)
      → table (left (run_or_fail w command arguments m)) ≡ table m
  unfolding run_or_fail run roll_back
  run_or_fail-table command arguments m = ground arith

  fill_rows-table :
      (server : Str) (idx : ℕ) (listed : List Row) (m : Manager Store)
      → table (fill_rows w server idx listed m) ≡ table m
  unfolding fill_rows
  fill_rows-table server idx [] m = refl
  fill_rows-table server idx (row ∷ rest) m = fill_rows-table server (suc idx) rest (record m {
    messages = insert_entry (show idx) (message_of w server row) m.messages;
    max_uid = next_max_uid w (message_of w server row).uid m.max_uid;
  })

  pub fill_message_list_by_db-table :
      (folder : Str) (m : Manager Store) → table (fill_message_list_by_db w folder m) ≡ table m
  unfolding fill_message_list_by_db run roll_back
  fill_message_list_by_db-table folder m = grind (arith, fill_rows-table)

  pub update_mailbox_info_by_db-table :
      (folder : Str) (read_only : Bool) (m : Manager Store)
      → table (update_mailbox_info_by_db w folder read_only m) ≡ table m
  unfolding update_mailbox_info_by_db run roll_back
  update_mailbox_info_by_db-table folder read_only m =
      ground (arith, fill_message_list_by_db-table folder m)

  pub read_mailbox_info-table :
      (folder : Str) (m : Manager Store) → table (read_mailbox_info w folder m).1 ≡ table m
  unfolding read_mailbox_info run roll_back
  read_mailbox_info-table folder m = ground (arith, fill_message_list_by_db-table folder m)

  -- A command on a folder that leaves the table.
  abbrev pub Keeps : (Manager Store → Reply (Manager Store)) → Type 0
  Keeps f = (m : Manager Store) → table (left (f m)) ≡ table m

  pub with_folder-Keeps :
      (atom : Str) (f : Manager Store → Reply (Manager Store))
      → Keeps f
      → Keeps (with_folder w atom f)
  unfolding with_folder
  with_folder-Keeps atom f k m =
      ground (arith, folder_exists-table atom m, k (folder_exists w atom m).1)
