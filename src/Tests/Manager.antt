-- ===== src/Tests/Manager.antt =====
-- Concrete runs of the theorems on the mailbox manager, with a database that has one mailbox of two
-- messages, of which the first is marked as deleted.
use chromatic_imap_cplus_plu.Manager.Commands.Messages.Store.{on_store-no_flags, left_by}
use chromatic_imap_cplus_plu.Manager.Commands.Account.Wire.{after_login, process-any_password}
use chromatic_imap_cplus_plu.Handler.Process.Answers.{NamesCommand}
use chromatic_imap_cplus_plu.Handler.Parse.RoundTrip.{print_command}
use chromatic_imap_cplus_plu.Handler.Dispatch.{Keyword}
use chromatic_imap_cplus_plu.Manager.Messages.Numbering.{fill_message_list_by_db-numbering}
use chromatic_imap_cplus_plu.Manager.Commands.Account.{read_domain}
use chromatic_imap_cplus_plu.Manager.Commands.Messages.{
  flags_method, before_space, store_parsed, highest, store_each,
}
use chromatic_imap_cplus_plu.Manager.Messages.{message_of, fill_message_list_by_db}
use chromatic_imap_cplus_plu.Manager.Folders.Names.{check_folder_name-apart}
use chromatic_imap_cplus_plu.Manager.Commands.Messages.Expunge.{
  on_expunge-replay, deleted_numbers, Replayed,
}
use chromatic_imap_cplus_plu.Manager.Folders.Patterns.{pattern_regex-list_match, list_match}
use chromatic_imap_cplus_plu.Manager.Folders.{starts_with_slash, pattern_regex, check_folder_name}
use chromatic_imap_cplus_plu.Handler.Strings.{extract_quoted_string, ucase, lcase}
use chromatic_imap_cplus_plu.Manager.Database.{run}
use chromatic_imap_cplus_plu.Text.Decimal.{show, long_to_int, digits_value, atoi}
use chromatic_imap_cplus_plu.Prelude.{
  ℕ, suc, ◌≡◌, refl, true, false, List, [], ◌∷◌, ◌++◌, Option, some, if◌then◌else◌, arith, length,
  get_elem?,
}
use chromatic_imap_cplus_plu.Prelude.Int.{ℤ, pos}
use chromatic_imap_cplus_plu.Text.{to_lower, find, found, to_upper, Str, codes, same}
use chromatic_imap_cplus_plu.Flags.{apply_flags, Flags, insert_flag, deleted}
use chromatic_imap_cplus_plu.Handler.Types.{
  authenticated, no_packet_error, Command, Handler, Reply, returned,
}
use chromatic_imap_cplus_plu.Manager.Types.{
  World, Manager, Argument, text, number, rows, Message, new_message, clear_info, no_flags, Table,
  find_entry, success,
}
use chromatic_imap_cplus_plu.Manager.Fetch.Mime.{Mime}
use chromatic_imap_cplus_plu.Manager.Commands.Messages
use chromatic_imap_cplus_plu.Tests.Regex.{run_regex, run_regex-Documented}

abbrev Fields : Type 0
Fields = Table Argument

abbrev long_of : Option Argument → ℤ
long_of (some (number n)) = n
long_of _ = pos 0

abbrev string_of : Option Argument → Str
string_of (some (text s)) = s
string_of _ = []

abbrev field : Str → ℤ → Str × Argument
field name n = (name, number n)

abbrev first_row : Fields
first_row = field (codes "idx") (pos 7) ∷ field (codes "deleted") (pos 1) ∷ []

abbrev second_row : Fields
second_row = field (codes "idx") (pos 9) ∷ []

-- Each procedure counts in the store; no folder is found.
abbrev answer_of : Str → List Argument → List Fields
answer_of command arguments =
    if same command (codes "call enumerate_messages_by_folder( :1 )")
    then first_row ∷ second_row ∷ []
    else []

abbrev pub world_test : World
world_test = record {
  Store = ℕ;
  Row = Fields;
  execute = λ command arguments n. (rows (answer_of command arguments), suc n);
  as_long = λ row name. long_of (find_entry name row);
  as_string = λ row name. string_of (find_entry name row);
  rollback = λ n. (false, n);
  remove_file = λ path n. (true, n);
  format = λ fmt arguments. fmt;
  regex_match = run_regex;
  unset_long = pos 0;
  unset_result = success;
}

abbrev pub mime_test : Mime ℕ
mime_test = record {
  Entity = Str;
  unlocked = true;
  load = λ path n. path;
  blank = [];
  entire_head = λ e. e;
  entire_body = λ e. e;
  whole = λ e. e;
  part = λ i e. some e;
  fields = λ e. [];
  as_unsigned = λ s. some 1;
}

abbrev message_1 : Message
message_1 = record new_message { uid = pos 7; flags = insert_flag deleted no_flags }

abbrev message_2 : Message
message_2 = record new_message { uid = pos 9 }

abbrev pub bob : Manager ℕ
bob = record {
  db = 0;
  user = codes "bob";
  user_domain = [];
  proxy_store = codes "store";
  messages = (codes "1", message_1) ∷ (codes "2", message_2) ∷ [];
  info = record clear_info { name = codes "/BOB/INBOX"; read_only = true };
  append_rec = record { size = 0; mbx = []; flags = no_flags; stream = [] };
  max_uid = 9;
  close_expunge = false;
  uids = false;
  fetch_map = [];
}

abbrev ann : Manager ℕ
ann = record bob { user = codes "Bob" }

abbrev pub undefined_test : Manager ℕ → Reply (Manager ℕ)
undefined_test m = returned false [] m

abbrev handler_test : Handler (Manager ℕ)
handler_test = record {
  stream = [];
  sent = [];
  token = codes "a1";
  command_text = [];
  command = Command.no_command_yet;
  error = no_packet_error;
  silent = false;
  uid = false;
  states = λ s. false;
  context = bob;
}

-- The messages as a client has them.
abbrev shown : List ℕ
shown = 7 ∷ 9 ∷ []

on_expunge-replay_example :
    (out : Str) × (next : Manager ℕ) × (Messages.on_expunge world_test [] [] bob
      ≡ returned true out next)
    × Replayed world_test (deleted_numbers bob.messages) shown out
unfolding atoi digits_value long_to_int run
on_expunge-replay_example =
    on_expunge-replay world_test (λ path s. refl) [] [] bob shown [] (λ h. h, tt)
      ((ground arith, ground arith), tt) (ground arith) refl refl

check_folder_name-apart_example : ucase (codes "bob") ≡ ucase (codes "Bob")
unfolding check_folder_name starts_with_slash ucase to_upper
check_folder_name-apart_example =
    check_folder_name-apart world_test (codes "inbox") (codes "/INBOX") bob ann (ground arith)
      (ground arith) refl

pattern_regex-list_match_example :
    run_regex (pattern_regex [] (codes "a/%")) (codes "a/b")
    ≡ some (list_match (codes "a/%") (codes "a/b"))
pattern_regex-list_match_example =
    pattern_regex-list_match run_regex [] (codes "a/%") (codes "a/b") run_regex-Documented
      (refl, (refl, (refl, tt)))

fill_message_list_by_db-numbering_example :
    (length (fill_message_list_by_db world_test (codes "/BOB/INBOX") bob).messages ≡ 2)
    × ((k : ℕ) (row : Fields)
        → get_elem? (first_row ∷ second_row ∷ []) k ≡ some row
        → find_entry
            (show (suc k))
            (fill_message_list_by_db world_test (codes "/BOB/INBOX") bob).messages
          ≡ some (message_of world_test (lcase []) row))
unfolding run
fill_message_list_by_db-numbering_example =
    fill_message_list_by_db-numbering world_test (codes "/BOB/INBOX") bob []
      (first_row ∷ second_row ∷ []) refl refl

abbrev writable : Manager ℕ
writable = record bob { info = clear_info }

abbrev store_test : Str
store_test = codes "1 +FLAGS (\\Seen)"

on_store-no_flags_example :
    let s = lcase store_test in
    (Messages.on_store world_test store_test [] writable
      ≡ store_each world_test
          (Messages.requested false
            (highest writable)
            (extract_quoted_string (before_space s))
            writable.messages)
          no_flags
          (flags_method s)
          (found (find (codes "silent") s))
          []
          writable)
    × ((local : Flags)
        → apply_flags (flags_method s) no_flags local ≡ left_by (flags_method s) local)
unfolding lcase
on_store-no_flags_example = on_store-no_flags world_test store_test [] writable refl refl

abbrev bob_login : Str
bob_login = print_command (codes "a1") (codes "LOGIN") (some (codes "bob" ++ 32 ∷ codes "wrong"))

bob_names :
    NamesCommand Keyword.login
      (codes "a1")
      (codes "LOGIN")
      (some (codes "bob" ++ 32 ∷ codes "wrong"))
unfolding lcase to_lower
bob_names = (omega arith, omega arith, omega arith, omega arith, refl)

abbrev bob_after : Handler (Manager ℕ)
bob_after =
    after_login world_test mime_test undefined_test 100 (codes "a1") (codes "LOGIN") (codes "bob")
      (codes "wrong") [] handler_test

process-any_password_example :
    (bob_after.sent ≡ [] ++ (codes "a1" ++ codes " OK login completed\r\n"))
    × (bob_after.states authenticated ≡ true)
    × (bob_after.context
        ≡ read_domain world_test
            (record bob { uids = false; user = lcase (extract_quoted_string (codes "bob")) }))
process-any_password_example =
    process-any_password world_test mime_test undefined_test 100 (codes "a1") (codes "LOGIN")
      (codes "bob") (codes "wrong") [] handler_test
      (omega arith, (omega arith, omega arith, omega arith)) bob_names (refl, refl, refl, refl)
      (ground arith) (ground arith) refl
