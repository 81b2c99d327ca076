-- ===== src/Handler/Types.antt =====
-- chromatic_imap/chromatic_types.h and the fields of `chromatic_handler` in
-- chromatic_imap/chromatic_imap.h.
use chromatic_imap_cplus_plu.Prelude.{ℕ, Bool, true, false, ◌==◌}
use chromatic_imap_cplus_plu.Prelude.Int.{ℤ}
use chromatic_imap_cplus_plu.Text.{Str}

-- chromatic_packet_error
pub data PacketError : Type 0 where
  no_token token_too_long no_command command_too_long : PacketError
  parameters_expected_got_none no_parameters_expected_got_some : PacketError
  too_many_parameters too_few_parameters invalid_payload invalid_syntax : PacketError
  unrecognized_command select_state failure invalid_object invalid_state : PacketError
  invalid_specification no_specification attribute_not_supported : PacketError
  not_authenticated already_authenticated not_enough_privileges no_packet_error : PacketError

-- chromatic_state
pub data ConnectionState : Type 0 where
  non_authenticated connected authenticated selected admin wait logged_out : ConnectionState

-- chromatic_command
pub data Command : Type 0 where
  login logout authenticate create select list delete rename lsub status : Command
  subscribe unsubscribe examine noop check capability searching copy fetch store : Command
  uid_command closing expunge append starttls no_command_yet error_command : Command

-- chromatic_set_op
pub data SetOp : Type 0 where
  add_state delete_state clear_states : SetOp

-- chromatic_packet_part
pub data PacketPart : Type 0 where
  token_part command_part payload_part uid_part : PacketPart

abbrev state_code : ConnectionState → ℕ
state_code non_authenticated = 0
state_code connected = 1
state_code authenticated = 2
state_code selected = 3
state_code admin = 4
state_code wait = 5
state_code logged_out = 6

abbrev pub same_state : ConnectionState → ConnectionState → Bool
same_state a b = state_code a == state_code b

abbrev pub is_error : PacketError → Bool
is_error no_packet_error = false
is_error _ = true

abbrev pub is_logout : Command → Bool
is_logout logout = true
is_logout _ = false

abbrev pub is_append : Command → Bool
is_append append = true
is_append _ = false

-- The methods of `chromatic_imap_message_server_protocol` that the handler calls.
pub data Service : Type 0 where
  on_login on_logout on_list on_create on_select on_delete on_rename on_lsub on_status : Service
  on_subscribe on_unsubscribe on_examine on_noop on_capability on_search on_copy : Service
  on_fetch on_store on_close on_expunge on_append : Service

-- How such a call ends: with its result, or with the text of a `chromatic_imap_mgr_error`. Either
-- way it has written some text to the stream.
pub data Reply (S : Type 0) : Type 0 where
  returned : Bool → Str → S → Reply S
  raised : Str → Str → S → Reply S

-- The manager as the handler sees it.
pub record Server : Type 1 where
  pub State : Type 0
  pub call : Service → Str → Str → State → Reply State
  pub uids : Bool → State → State
  pub append_text : Str → State → State

-- `states` is the set m_currentState, `command_text` m_strCommand, `sent` all that the peer has got.
pub record Handler (S : Type 0) : Type 0 where
  pub stream : Str
  pub sent : Str
  pub token : Str
  pub command_text : Str
  pub command : Command
  pub error : PacketError
  pub silent : Bool
  pub uid : Bool
  pub states : ConnectionState → Bool
  pub context : S

-- How a handler's method ends: with its result, or with an exception that it does not catch.
pub data Outcome (S : Type 0) : Type 0 where
  done : Handler S → ℤ → Outcome S
  threw : Str → Handler S → Outcome S
