-- ===== src/Manager/Messages.antt =====
-- The list of messages and the state of the selected mailbox, as chromatic_imap/chromatic_imap_mgr.cpp
-- reads them from the database. A mailbox has fewer than 2 ^ 64 messages, so the counter of
-- `fill_message_list_by_db` does not wrap.
pub mod Numbering
use chromatic_imap_cplus_plu.Prelude.{
  ℕ, suc, ◌-◌, ◌^◌, Bool, false, List, [], ◌∷◌, ◌++◌, ltb, if◌then◌else◌,
}
use chromatic_imap_cplus_plu.Prelude.Int.{ℤ, pos, negsuc, eqb_ℤ, ◌-ℤ◌}
use chromatic_imap_cplus_plu.Text.{Str, codes, c_str}
use chromatic_imap_cplus_plu.Text.Decimal.{show}
use chromatic_imap_cplus_plu.Base64.{base64_encode}
use chromatic_imap_cplus_plu.Flags.{
  Flags, MailMessageFlag, insert_flag, erase_flag, answered, deleted, draft, flagged, recent, seen,
}
use chromatic_imap_cplus_plu.Handler.Strings.{lcase}
use chromatic_imap_cplus_plu.Manager.Types.{
  World, Manager, Argument, text, rows, failed, Message, MailboxInfo, clear_info, no_flags,
  insert_entry, show_long,
}
use chromatic_imap_cplus_plu.Manager.Database.{run, roll_back, last_string}
use chromatic_imap_cplus_plu.Manager.Urls.{message_tag}

-- (unsigned long) of a long
unfoldable pub to_unsigned : ℤ → ℕ
to_unsigned (pos n) = n
to_unsigned (negsuc n) = 2 ^ 64 - 1 - n

-- The flags that `update_mailbox_info_by_db` collects in `vFlags`.
abbrev pub settable_flags : Flags
settable_flags =
    insert_flag draft
      (insert_flag seen (insert_flag deleted (insert_flag flagged (insert_flag answered no_flags))))

abbrev pub server_command : Str
server_command = codes "call get_user_mail_server_ex( :1 )"

abbrev pub list_command : Str
list_command = codes "call enumerate_messages_by_folder( :1 )"

module _ (w : World) where
  open w use {Store, Row, as_long, as_string}

  -- A flag of a message: whether its column holds 1.
  unfoldable pub column_flag : Row → MailMessageFlag → Bool
  column_flag row deleted = eqb_ℤ (as_long row (codes "deleted")) (pos 1)
  column_flag row answered = eqb_ℤ (as_long row (codes "answered")) (pos 1)
  column_flag row draft = eqb_ℤ (as_long row (codes "draft")) (pos 1)
  column_flag row flagged = eqb_ℤ (as_long row (codes "flagged")) (pos 1)
  column_flag row recent = eqb_ℤ (as_long row (codes "recent")) (pos 1)
  column_flag row seen = eqb_ℤ (as_long row (codes "seen")) (pos 1)

  unfoldable pub message_of : Str → Row → Message
  unfolding message_tag base64_encode column_flag
  message_of server row =
      let str = as_string row (codes "absolute_url_string") in
      record {
        uid = as_long row (codes "idx");
        size = as_long row (codes "msg_size");
        url = base64_encode (message_tag str);
        file_url = str;
        offset = as_string row (codes "folder_offset");
        server = server;
        flags = column_flag row;
      }

  -- `dwMax`, which the loop compares each uid with, stays 0.
  abbrev pub next_max_uid : ℤ → ℕ → ℕ
  next_max_uid uid max_uid = if ltb 0 (to_unsigned uid) then to_unsigned uid else max_uid

  unfoldable pub fill_rows : Str → ℕ → List Row → Manager Store → Manager Store
  unfolding message_of to_unsigned insert_entry show
  fill_rows server idx [] m = m
  fill_rows server idx (row ∷ rest) m =
      let oim = message_of server row in
      fill_rows server (suc idx) rest (record m {
        messages = insert_entry (show idx) oim m.messages;
        max_uid = next_max_uid oim.uid m.max_uid;
      })

  unfoldable pub fill_message_list_by_db : Str → Manager Store → Manager Store
  unfolding run roll_back fill_rows lcase
  fill_message_list_by_db folder m =
      let r = run w server_command (text (c_str m.user) ∷ []) (record m { messages = [] }) in
      elim r.0 [
        | failed what ↦ (roll_back w r.1).1
        | rows found ↦
            let server = lcase (last_string w (codes "server") [] found) in
            let q = run w list_command (text (c_str folder) ∷ []) r.1 in
            elim q.0 [
              | failed what ↦ (roll_back w q.1).1
              | rows listed ↦ fill_rows server 1 listed q.1
            ]
      ]

  -- A turn of the loop over the counts. The stream keeps the validity, which the next row's uid
  -- follows.
  unfoldable pub info_row : Str → Row → Str → MailboxInfo → MailboxInfo
  unfolding show
  info_row folder row stream info =
      let total = as_long row (codes "dwTotal") in
      record info {
        flags = settable_flags;
        changeable_flags = erase_flag recent settable_flags;
        name = folder;
        recent = as_long row (codes "dwRecentCount");
        first_unseen = as_long row (codes "first_unseen");
        exists = total;
        unseen = total -ℤ as_long row (codes "dwSeenCount");
        uid_next = stream ++ show_long (as_long row (codes "dwUidnext"));
        uid_validity = show_long (as_long row (codes "dwValidity"));
      }

  unfoldable pub info_rows : Str → List Row → Str → MailboxInfo → MailboxInfo
  unfolding info_row
  info_rows folder [] stream info = info
  info_rows folder (row ∷ rest) stream info =
      let next = info_row folder row stream info in info_rows folder rest next.uid_validity next

  -- A mailbox without rows leaves `read_only` cleared.
  abbrev pub mark_read_only : Bool → List Row → MailboxInfo → MailboxInfo
  mark_read_only read_only [] info = info
  mark_read_only read_only (row ∷ rest) info = record info { read_only = read_only }

  abbrev counts_command : Str
  counts_command = codes "call get_message_flags_by_folder_ex( :1 )"

  -- update_mailbox_info_by_db( folder , bReadOnly )
  unfoldable pub update_mailbox_info_by_db : Str → Bool → Manager Store → Manager Store
  unfolding run roll_back fill_message_list_by_db info_rows
  update_mailbox_info_by_db folder read_only m =
      let r =
        run w counts_command (text (c_str folder) ∷ [])
          (record (fill_message_list_by_db folder m) { info = clear_info }) in
      elim r.0 [
        | failed what ↦ (roll_back w r.1).1
        | rows found ↦ record r.1 {
          info = mark_read_only read_only found (info_rows folder found [] clear_info);
        }
      ]

  -- update_mailbox_info_by_db( folder , info ), which gives `info` back
  unfoldable pub read_mailbox_info : Str → Manager Store → MailboxInfo × Manager Store
  unfolding run roll_back fill_message_list_by_db info_rows
  read_mailbox_info folder m =
      let r = run w counts_command (text (c_str folder) ∷ []) (fill_message_list_by_db folder m) in
      elim r.0 [
        | failed what ↦ (clear_info, (roll_back w r.1).1)
        | rows found ↦ (info_rows folder found [] clear_info, r.1)
      ]
