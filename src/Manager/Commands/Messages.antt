-- ===== src/Manager/Commands/Messages.antt =====
-- The commands of chromatic_imap/chromatic_imap_mgr.cpp on messages of the selected mailbox, but FETCH.
-- A path of `on_expunge` is not the empty text, and the names of messages are numbers that fit an int.
pub mod Replay
pub mod Expunge
pub mod Store
use chromatic_imap_cplus_plu.Prelude.{
  ℕ, suc, ◌+◌, ◌-◌, ◌^◌, ◌%◌, ◌==◌, not, Bool, true, false, List, [], ◌∷◌, ◌++◌, map, Option, none,
  some, if◌then◌else◌, length,
}
use chromatic_imap_cplus_plu.Prelude.Int.{ℤ, pos}
use chromatic_imap_cplus_plu.Text.{
  Str, codes, find, find_first_of, found, substr, substr_len, c_str, is_empty,
}
use chromatic_imap_cplus_plu.Text.Decimal.{show, atoi, long_to_int}
use chromatic_imap_cplus_plu.Flags.{
  all_flags, Flags, FlagsMethod, MailMessageFlag, add, remove, replace, deleted, str_to_mbx_flags,
  mbx_flags_to_str, apply_flags, stream_all,
}
use chromatic_imap_cplus_plu.Tokenizer.{safe_tokenize}
use chromatic_imap_cplus_plu.MessageManip.{
  expand_message_sequence, sort, atoms_intersection, extract_parenthetical_atoms,
}
use chromatic_imap_cplus_plu.Handler.Strings.{lcase, extract_quoted_string}
use chromatic_imap_cplus_plu.Handler.Types.{Reply, returned, raised}
use chromatic_imap_cplus_plu.Manager.Types.{
  World, Manager, Argument, text, number, rows, failed, Message, new_message, no_flags, Table,
  find_entry, show_long, clear_info,
}
use chromatic_imap_cplus_plu.Manager.Database.{run, roll_back, run_or_fail}
use chromatic_imap_cplus_plu.Manager.Folders.{check_folder_name, with_folder}
use chromatic_imap_cplus_plu.Manager.Messages.{to_unsigned, update_mailbox_info_by_db}
use chromatic_imap_cplus_plu.Manager.Responses.{line_end, store_response}

-- The number of a message that `vMessageNums` gets: its uid or its name.
unfoldable pub entry_number : Bool → Str × Message → ℤ
unfolding atoi long_to_int
entry_number uids entry = if uids then long_to_int entry.1.uid else atoi (c_str entry.0)

-- The messages of the mailbox that a set names, `vRequestSet`.
unfoldable pub requested : Bool → ℕ → Str → Table Message → List ℤ
unfolding entry_number expand_message_sequence sort atoms_intersection long_to_int
requested uids limit message_set messages =
    atoms_intersection (expand_message_sequence message_set (long_to_int (pos limit)))
      (sort (map (entry_number uids) messages))

-- dwMax
abbrev pub highest : {D : Type 0} → Manager D → ℕ
highest m = if m.uids then m.max_uid else length m.messages

-- The message that a number of a request means, with its name: none leaves a message without
-- values, whose name is the number itself where it is no uid.
unfoldable pub find_uid : ℕ → Table Message → Option (Str × Message)
unfolding to_unsigned
find_uid msg_id [] = none
find_uid msg_id (entry ∷ rest) =
    if to_unsigned entry.1.uid == msg_id then some entry else find_uid msg_id rest

unfoldable pub named_message : {D : Type 0} → ℕ → Manager D → Str × Message
unfolding find_entry find_uid show
named_message msg_id m =
    if not m.uids
    then elim (find_entry (show msg_id) m.messages) [
      | none ↦ (show msg_id, new_message)
      | some msg ↦ (show msg_id, msg)
    ]
    else elim (find_uid msg_id m.messages) [ none ↦ ([], new_message) | some entry ↦ entry ]

-- What `on_copy` sends for a number: its uid in quotes, and a comma.
abbrev quoted : ℤ → Str
quoted n = 39 ∷ (show_long n ++ codes "',")

unfoldable pub copied_uid : {D : Type 0} → Manager D → ℤ → Str
unfolding find_entry show
copied_uid m n =
    if m.uids
    then quoted n
    else elim (find_entry (show_long n) m.messages) [ none ↦ [] | some msg ↦ quoted msg.uid ]

-- The method that the text of a STORE names.
unfoldable pub flags_method : Str → FlagsMethod
flags_method s =
    if found (find (codes "+flags") s)
    then add
    else if found (find (codes "-flags") s)
    then remove
    else replace

-- `message_set` and `atoms` of `on_store`
abbrev pub before_space : Str → Str
before_space s = elim (find_first_of (codes " ") s) [ none ↦ [] | some idx ↦ substr_len 0 idx s ]

abbrev pub behind_space : Str → Str
behind_space s = elim (find_first_of (codes " ") s) [ none ↦ [] | some idx ↦ substr (idx + 1) s ]

unfoldable pub store_atoms : Str → Str
unfolding extract_parenthetical_atoms extract_quoted_string lcase
store_atoms s = lcase (extract_quoted_string (extract_parenthetical_atoms (behind_space s)))

-- (*dter) - dw, an unsigned long
unfoldable pub unsigned_minus : ℤ → ℕ → ℕ
unfolding to_unsigned
unsigned_minus n dw = (to_unsigned n + (2 ^ 64 - dw)) % 2 ^ 64

-- The numbers that `on_expunge` prints for the deleted messages `v`, from the count `dw` on.
unfoldable pub expunged_numbers : ℕ → List ℤ → List ℕ
unfolding unsigned_minus
expunged_numbers dw [] = []
expunged_numbers dw (n ∷ v) = unsigned_minus n dw ∷ expunged_numbers (suc dw) v

abbrev pub expunged_line : ℕ → Str
expunged_line n = codes "* " ++ show n ++ codes " expunged" ++ line_end

module _ (w : World) where
  open w use {Store, Row, format, remove_file}

  unfoldable pub on_search : Str → Str → Manager Store → Reply (Manager Store)
  on_search params fmt m = returned true [] m

  unfoldable pub copy_words : List Str → Manager Store → Reply (Manager Store)
  unfolding extract_quoted_string check_folder_name with_folder requested copied_uid run_or_fail
  copy_words (set ∷ folder ∷ []) m =
      with_folder w (check_folder_name w (extract_quoted_string folder) m)
        (λ next.
          let chosen =
            requested next.uids (length next.messages) (extract_quoted_string set) next.messages in
          run_or_fail w (codes "call copy_messages_from_subscribe_folder( :1 , :2 , :3 , :4 )")
            (text (c_str next.info.name)
              ∷ text (c_str next.user)
              ∷ text (c_str (stream_all (copied_uid next) chosen))
              ∷ [])
            next)
        m
  copy_words _ m = returned false [] m

  unfoldable pub on_copy : Str → Str → Manager Store → Reply (Manager Store)
  unfolding safe_tokenize copy_words
  on_copy params fmt m = copy_words (safe_tokenize params (codes " ")) m

  abbrev flag_argument : Bool → Argument
  flag_argument held = number (pos (if held then 1 else 0))

  -- Whether it raises "access denied", and the manager.
  unfoldable pub set_message_flags_by_db : Str → Flags → Manager Store → Bool × Manager Store
  unfolding run roll_back
  set_message_flags_by_db url flags m =
      let r =
        run w (codes "call update_message_flags( :1 , :2, :3, :4 , :5 , :6 , :7)")
          (text (c_str url) ∷ map (λ f. flag_argument (flags f)) all_flags) m in
      elim r.0 [ rows found ↦ (false, r.1) | failed what ↦ (true, (roll_back w r.1).1) ]

  -- The message is a copy: the list of messages keeps the old flags.
  unfoldable pub store_flags :
      ℕ → Flags → FlagsMethod → Bool → Manager Store → Reply (Manager Store)
  unfolding named_message apply_flags set_message_flags_by_db mbx_flags_to_str store_response
  store_flags msg_id flags method silent m =
      let entry = named_message msg_id m in
      let local_flags = apply_flags method flags entry.1.flags in
      let r = set_message_flags_by_db entry.1.url local_flags m in
      if r.0
      then raised (codes "access denied") [] r.1
      else if silent
      then returned true [] r.1
      else returned true (store_response entry.0 (mbx_flags_to_str local_flags)) r.1

  unfoldable pub store_each :
      List ℤ → Flags → FlagsMethod → Bool → Str → Manager Store → Reply (Manager Store)
  unfolding store_flags to_unsigned
  store_each [] flags method silent ostr m = returned true ostr m
  store_each (n ∷ rest) flags method silent ostr m =
      elim (store_flags (to_unsigned n) flags method silent m) [
        | returned ok written next ↦ store_each rest flags method silent (ostr ++ written) next
        | raised what written next ↦ raised what (ostr ++ written) next
      ]

  -- The end of `on_store`, with `params` in lower case.
  unfoldable pub store_parsed : Str → Manager Store → Reply (Manager Store)
  unfolding requested extract_quoted_string str_to_mbx_flags store_atoms flags_method store_each
  store_parsed s m =
      store_each (requested m.uids (highest m) (extract_quoted_string (before_space s)) m.messages)
        (str_to_mbx_flags (store_atoms s) no_flags) (flags_method s)
        (found (find (codes "silent") s)) [] m

  unfoldable pub on_store : Str → Str → Manager Store → Reply (Manager Store)
  unfolding lcase store_parsed
  on_store params fmt m =
      if is_empty (lcase params)
      then raised (codes "store parse error") [] m
      else if m.info.read_only
      then raised (codes "Mailbox is read-only") [] m
      else store_parsed (lcase params) m

  unfoldable pub on_close : Str → Str → Manager Store → Reply (Manager Store)
  on_close params fmt m = returned true [] (record m { close_expunge = true })

  abbrev pub message_path : Str → Message → Str
  message_path proxy_store msg =
      proxy_store ++ codes "\\" ++ msg.offset ++ codes "\\" ++ msg.url ++ codes ".xml"

  -- The loop that removes the files of the deleted messages: their numbers, or none where a file
  -- is not removed and the error is raised.
  unfoldable pub remove_files :
      Table Message → List ℤ → Manager Store → Option (List ℤ) × Manager Store
  unfolding atoi
  remove_files [] v m = (some v, m)
  remove_files (entry ∷ rest) v m =
      if not (entry.1.flags deleted)
      then remove_files rest v m
      else let r = remove_file (c_str (message_path m.proxy_store entry.1)) m.db in
        let next = record m { db = r.1 } in
        if not r.0 then (none, next) else remove_files rest (v ++ atoi entry.0 ∷ []) next

  -- The end of `on_expunge`, for the numbers of the deleted messages.
  unfoldable pub expunge_removed : List ℤ → Manager Store → Reply (Manager Store)
  unfolding sort expunged_numbers update_mailbox_info_by_db
  expunge_removed v m =
      if m.close_expunge
      then returned true [] (record m { messages = []; info = clear_info; close_expunge = false })
      else returned true (stream_all expunged_line (expunged_numbers 0 (sort v)))
          (update_mailbox_info_by_db w m.info.name false m)

  abbrev pub expunge_command : Str
  expunge_command = codes "call expunge_messages_by_idx( :1 )"

  abbrev pub expunge_arguments : Manager Store → List Argument
  expunge_arguments m = text (c_str m.info.name) ∷ []

  -- The error where a file is not removed.
  unfoldable pub finish_expunge : Option (List ℤ) × Manager Store → Reply (Manager Store)
  unfolding expunge_removed
  finish_expunge (none, m) = raised (codes "error in expunge message") [] m
  finish_expunge (some v, m) = expunge_removed v m

  unfoldable pub on_expunge : Str → Str → Manager Store → Reply (Manager Store)
  unfolding run roll_back remove_files finish_expunge
  on_expunge params fmt m =
      let r = run w expunge_command (expunge_arguments m) m in
      elim r.0 [
        | failed what ↦ returned false [] (roll_back w r.1).1
        | rows found ↦ finish_expunge (remove_files r.1.messages [] r.1)
      ]
