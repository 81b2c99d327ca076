-- ===== src/Handler/Output.antt =====
-- What `chromatic_handler` writes, and its set of connection states.
use chromatic_imap_cplus_plu.Prelude.{Bool, true, false, [], ◌∷◌, ◌++◌, if◌then◌else◌}
use chromatic_imap_cplus_plu.Text.{Str, codes}
use chromatic_imap_cplus_plu.Handler.Types.{
  PacketError, no_token, token_too_long, no_command, command_too_long, parameters_expected_got_none,
  no_parameters_expected_got_some, too_many_parameters, too_few_parameters, invalid_payload,
  invalid_syntax, unrecognized_command, select_state, failure, invalid_object, invalid_state,
  invalid_specification, no_specification, attribute_not_supported, not_authenticated,
  already_authenticated, not_enough_privileges, no_packet_error, ConnectionState, SetOp, add_state,
  delete_state, clear_states, same_state, error_command, wait, Handler,
}
use chromatic_imap_cplus_plu.Handler.Strings.{ucase}

abbrev pub crlf : Str
crlf = 13 ∷ 10 ∷ []

unfoldable pub error_text : PacketError → Str
error_text no_token = codes "no token supplied - expected"
error_text token_too_long = codes "token too long"
error_text no_command = codes "no command supplied - expected"
error_text command_too_long = codes "buffer to large"
error_text too_many_parameters = codes "too many parameters supplied"
error_text invalid_payload = codes "invalid buffer"
error_text invalid_syntax = codes "invalid syntax"
error_text unrecognized_command = codes "command unrecognized"
error_text select_state = codes " a target must be selected before a query"
error_text too_few_parameters = codes " too few parameters - more"
error_text no_parameters_expected_got_some = codes " no parameters expected - got some"
error_text parameters_expected_got_none = codes "parameters expected - got none"
error_text failure = codes "a server operation within this context failed"
error_text invalid_object = codes "object does not exist"
error_text invalid_specification = codes "invalid specification"
error_text no_specification = codes "no specification"
error_text invalid_state = codes "invalid state"
error_text attribute_not_supported = codes "attribute not supported"
error_text not_authenticated = codes "please login"
error_text already_authenticated = codes "already logged in"
error_text not_enough_privileges = codes "not enough privileges"
error_text no_packet_error = []

module _ {S : Type 0} where
  -- stream() << text
  abbrev pub write : Str → Handler S → Handler S
  write text h = record h { stream = h.stream ++ text }

  -- The send is taken to succeed; its result is not looked at.
  unfoldable pub flush_stream_to_connector : Handler S → Handler S
  flush_stream_to_connector h =
      if h.silent
      then record h { stream = [] }
      else record h { sent = h.sent ++ h.stream; stream = [] }

  unfoldable pub flush_immediate : Str → Handler S → Handler S
  unfolding flush_stream_to_connector
  flush_immediate atom h = flush_stream_to_connector (write atom h)

  -- std::ends writes a NUL.
  abbrev pub output_prompt : Bool → Handler S → Str
  output_prompt btoken h = if btoken then h.token ++ 0 ∷ [] else []

  -- command_str()
  abbrev pub command_str : Handler S → Str
  command_str h = ucase h.command_text

  unfoldable pub output_ok_response : Str → Handler S → Handler S
  output_ok_response ack h = write (h.token ++ codes " " ++ codes "OK " ++ ack ++ crlf) h

  unfoldable pub output_no_response : Str → Handler S → Handler S
  output_no_response nack h = record h {
    stream = h.stream ++ h.token ++ codes " " ++ codes "NO " ++ nack ++ crlf;
    command_text = [];
  }

  unfoldable pub format_packet_error : PacketError → Handler S → Handler S
  unfolding error_text flush_stream_to_connector
  format_packet_error pe h = flush_stream_to_connector (record h {
    command = error_command;
    stream =
        h.stream
        ++ output_prompt true h
        ++ codes " NO "
        ++ error_text pe
        ++ crlf
        ++ output_prompt false h;
  })

  unfoldable pub check_connection_state : ConnectionState → Handler S → Bool
  check_connection_state s h = h.states s

  unfoldable pub update_connection_state : SetOp → ConnectionState → Handler S → Handler S
  update_connection_state add_state s h = record h {
    states = λ t. if same_state s t then true else h.states t;
  }
  update_connection_state delete_state s h = record h {
    states = λ t. if same_state s t then false else h.states t;
  }
  update_connection_state clear_states s h = record h { states = λ t. false }

  unfoldable pub wait_ : Handler S → Handler S
  unfolding flush_stream_to_connector update_connection_state
  wait_ h = update_connection_state add_state wait (
      flush_stream_to_connector
        (write (output_prompt true h ++ codes " " ++ codes "WAIT" ++ crlf) h))
