-- ===== src/Tests.antt =====
-- Concrete runs of the theorems, with a small manager that knows one user.
pub mod Connection
pub mod Envelope
pub mod LinkedList
pub mod Messages
pub mod Regex
pub mod Manager
pub mod Opening
pub mod ThreadPool
use chromatic_imap_cplus_plu.Handler.Session.Refusal.{run_keyword-refused}
use chromatic_imap_cplus_plu.Handler.Session.Uid.{uid_fetch-refused}
use chromatic_imap_cplus_plu.Handler.Commands.Messages.{on_uid}
use chromatic_imap_cplus_plu.Prelude.Int.{pos}
use chromatic_imap_cplus_plu.Handler.Session.Refines.{process-Move, run_keyword-SessionStep}
use chromatic_imap_cplus_plu.Handler.Dispatch.Keywords.{perform-print, received}
use chromatic_imap_cplus_plu.Handler.Process.Answers.{
  respond-sends, process-refused, NamesCommand, process-print, Readable,
}
use chromatic_imap_cplus_plu.Handler.Output.{
  flush_stream_to_connector, crlf, output_ok_response, update_connection_state,
  check_connection_state, error_text,
}
use chromatic_imap_cplus_plu.Handler.Process.Append.{serve-Mute, serve, Mute}
use chromatic_imap_cplus_plu.Handler.Process.Reading.{process-two_pieces}
use chromatic_imap_cplus_plu.Handler.Session.{Move, final, SessionStep}
use chromatic_imap_cplus_plu.Handler.Strings.{chomp, lcase}
use chromatic_imap_cplus_plu.Handler.Strings.Laws.{Without}
use chromatic_imap_cplus_plu.Handler.Session.Security.{
  opens, receives, process-authenticated, Session, Session-Consistent,
}
use chromatic_imap_cplus_plu.Handler.Parse.{parse_rest, parse_token, parse_command}
use chromatic_imap_cplus_plu.Handler.Parse.RoundTrip.{parse_command-print, print_command}
use chromatic_imap_cplus_plu.Text.{to_lower, same, codes, Str}
use chromatic_imap_cplus_plu.Handler.Process.{respond, take_request, process_loop, process}
use chromatic_imap_cplus_plu.Handler.Types.{
  selected, failure, token_part, command_part, invalid_state, done, Command, payload_part, returned,
  no_packet_error, authenticated, Reply, same_state, no_command_yet, Service, Handler, Server,
}
use chromatic_imap_cplus_plu.Handler.Dispatch.{
  Keyword, dispatch, perform_parts, perform_parsed, perform, run_keyword,
}
use chromatic_imap_cplus_plu.Handler.Commands.Mailboxes.{on_select}
use chromatic_imap_cplus_plu.Handler.Commands.Account.{on_login, answer_login}
use chromatic_imap_cplus_plu.Prelude.{
  ◌+◌, ◌≤◌, ◌<◌, ◌↔◌, ◌⊎◌, ◌≢◌, ◌==◌, ◌&&◌, not, if◌then◌else◌, All, In, Any, ap, if◌then◌else◌,
  ◌+◌, ℕ, ◌≡◌, refl, Bool, true, false, List, [], ◌∷◌, ◌++◌, Option, none, some, arith, inl, inr,
  length, drop,
}

-- The manager: its state is the number of commands that succeeded.
abbrev answer_test : Service → Str → ℕ → Reply ℕ
answer_test Service.on_login params n =
    if same params (codes "bob secret") then returned true [] (n + 1) else returned false [] n
answer_test Service.on_select params n = returned true (codes "* 3 EXISTS\n") (n + 1)
answer_test service params n = returned true [] n

abbrev server_test : Server
server_test = record {
  State = ℕ;
  call = λ service params fmt n. answer_test service params n;
  uids = λ b n. n;
  append_text = λ text n. n + length text;
}

abbrev new_handler : Handler ℕ
new_handler = record {
  stream = [];
  sent = [];
  token = [];
  command_text = [];
  command = no_command_yet;
  error = no_packet_error;
  silent = false;
  uid = false;
  states = λ t. false;
  context = 0;
}

abbrev logged_in : Handler ℕ
logged_in = record new_handler { states = λ t. same_state authenticated t }

abbrev login_line : Str
login_line = print_command (codes "a1") (codes "LOGIN") (some (codes "bob secret"))

abbrev lacks : ℕ → Str → Bool
lacks c [] = true
lacks c (d ∷ s) = not (d == c) && lacks c s

lacks_lem : (c : ℕ) (s : Str) → lacks c s ≡ true → Without c s
lacks_lem c [] e = tt
lacks_lem c (d ∷ s) e = (ground arith, lacks_lem c s (ground arith))

login_names : NamesCommand Keyword.login (codes "a1") (codes "LOGIN") (some (codes "bob secret"))
unfolding lcase to_lower
login_names = (
  lacks_lem 32 (codes "a1") refl,
  omega arith,
  lacks_lem 32 (codes "LOGIN") refl,
  lacks_lem 10 (codes "bob secret") refl,
  refl,
)

login-Readable : Readable 100 login_line
login-Readable = (
  omega arith,
  (lacks_lem 0 login_line refl, lacks_lem 3 login_line refl, lacks_lem 26 login_line refl),
)

abbrev fetch_line : Str
fetch_line = print_command (codes "a2") (codes "Fetch") (some (codes "1:3 (FLAGS)"))

fetch_names : NamesCommand Keyword.fetch (codes "a2") (codes "Fetch") (some (codes "1:3 (FLAGS)"))
unfolding lcase to_lower
fetch_names = (
  lacks_lem 32 (codes "a2") refl,
  omega arith,
  lacks_lem 32 (codes "Fetch") refl,
  lacks_lem 10 (codes "1:3 (FLAGS)") refl,
  refl,
)

fetch-Readable : Readable 100 fetch_line
fetch-Readable = (
  omega arith,
  (lacks_lem 0 fetch_line refl, lacks_lem 3 fetch_line refl, lacks_lem 26 fetch_line refl),
)

abbrev session_handler : Handler ℕ
session_handler = (final (process server_test 100 (login_line ∷ []) new_handler).0)

client-Session : Session server_test session_handler
client-Session = receives 100 (login_line ∷ []) (opens refl)

abbrev selected_handler : Handler ℕ
selected_handler =
    final
      (process server_test 100
        (print_command (codes "a3") (codes "SELECT") (some (codes "inbox")) ∷ []) session_handler).0

select-states_test : selected_handler.states selected ≡ true
unfolding process process_loop take_request perform perform_parsed parse_command parse_token
    parse_rest perform_parts dispatch run_keyword on_login answer_login on_select respond lcase
    to_lower chomp check_connection_state update_connection_state output_ok_response
    flush_stream_to_connector
select-states_test = refl

select-step_test :
    (final (run_keyword server_test Keyword.select (codes "inbox") logged_in)).states selected
    ≡ true
unfolding run_keyword on_select check_connection_state update_connection_state output_ok_response
select-step_test = refl

login_test :
    (final (process server_test 100 (login_line ∷ []) new_handler).0).sent
    ≡ codes "a1 OK login completed" ++ crlf
unfolding process process_loop take_request perform perform_parsed parse_command parse_token
    parse_rest perform_parts dispatch run_keyword on_login answer_login respond lcase to_lower chomp
    check_connection_state update_connection_state output_ok_response flush_stream_to_connector
login_test = refl

run_keyword-SessionStep_example :
    SessionStep server_test
      (codes "inbox")
      0
      Keyword.select
      (logged_in.states)
      (final (run_keyword server_test Keyword.select (codes "inbox") logged_in)).states
run_keyword-SessionStep_example =
    run_keyword-SessionStep server_test Keyword.select (codes "inbox") logged_in

process-Move_example : Move server_test new_handler.states session_handler.states
process-Move_example = process-Move server_test 100 (login_line ∷ []) new_handler

Session-Consistent_example : selected_handler.states authenticated ≡ true
Session-Consistent_example =
    Session-Consistent server_test
      (receives 100 (print_command (codes "a3") (codes "SELECT") (some (codes "inbox")) ∷ [])
        client-Session)
      select-states_test

process-refused_example :
    (final (process server_test 100 (fetch_line ∷ []) logged_in).0).sent
    ≡ (codes "a2" ++ 0 ∷ []) ++ codes " NO " ++ error_text invalid_state ++ crlf
process-refused_example =
    process-refused server_test 100 Keyword.fetch (codes "a2") (codes "Fetch")
      (some (codes "1:3 (FLAGS)")) [] logged_in fetch-Readable fetch_names (refl, refl, refl, refl)
      refl

run_keyword-refused_example :
    run_keyword server_test Keyword.fetch (codes "1") logged_in
    ≡ done (record logged_in { command = Command.fetch; error = invalid_state }) (pos 0)
run_keyword-refused_example =
    run_keyword-refused server_test Keyword.fetch (codes "1") logged_in refl

perform-print_example :
    perform server_test login_line new_handler
    ≡ run_keyword server_test Keyword.login
        (codes "bob secret")
        (received server_test (codes "a1") (codes "LOGIN") new_handler)
perform-print_example =
    perform-print server_test Keyword.login (codes "a1") (codes "LOGIN") (some (codes "bob secret"))
      new_handler login_names.0 login_names.1 login_names.2 login_names.3 login_names.4

parse_command-print_example : parse_command login_line [] new_handler ≡ (
  record new_handler { token = codes "a1"; command_text = codes "LOGIN" },
  (token_part, codes "a1")
      ∷ (command_part, codes "LOGIN")
      ∷ (payload_part, codes "bob secret")
      ∷ [],
)
parse_command-print_example =
    parse_command-print (codes "a1") (codes "LOGIN") (some (codes "bob secret")) new_handler
      login_names.0 login_names.1 login_names.2 login_names.3

-- The second piece is "OOP\r\n" behind "a1 LOGOUT N", and "GOUT N" of the first is read again.
process-two_pieces_example :
    process server_test 100 (codes "a1 LOGOUT N" ∷ codes "OOP\r\n" ∷ []) new_handler
    ≡ (take_request server_test (codes "a1 LOGOUT NOOP\r\nGOUT N") new_handler, [])
process-two_pieces_example =
    process-two_pieces server_test 100 (codes "a1 LOGOUT N") (codes "OOP\r\n") [] new_handler
      (omega arith) (omega arith)
      (
        lacks_lem 0 (codes "a1 LOGOUT N") refl,
        lacks_lem 3 (codes "a1 LOGOUT N") refl,
        lacks_lem 26 (codes "a1 LOGOUT N") refl,
        lacks_lem 10 (codes "a1 LOGOUT N") refl,
      )
      (
        lacks_lem 0 (codes "OOP\r\n") refl,
        lacks_lem 3 (codes "OOP\r\n") refl,
        lacks_lem 26 (codes "OOP\r\n") refl,
      )
      refl

abbrev appending : Handler ℕ
appending = record new_handler { command = Command.append }

serve-Mute_example :
    Mute server_test appending
      (serve server_test 100 ((login_line ∷ []) ∷ (fetch_line ∷ []) ∷ []) appending)
serve-Mute_example =
    serve-Mute server_test 100 ((login_line ∷ []) ∷ (fetch_line ∷ []) ∷ []) appending refl
