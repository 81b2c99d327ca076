-- ===== src/Manager/Types.antt =====
-- The state of `chromatic_imap_mgr` and the classes it keeps, of chromatic_imap/chromatic_imap.h, and
-- what the manager uses of the world outside.
use chromatic_imap_cplus_plu.Prelude.{
  ℕ, suc, Bool, true, false, List, [], ◌∷◌, Option, none, some, ◌==◌, ltb, if◌then◌else◌,
}
use chromatic_imap_cplus_plu.Prelude.Int.{ℤ, pos, negsuc}
use chromatic_imap_cplus_plu.Text.{Str, same}
use chromatic_imap_cplus_plu.Text.Decimal.{show}
use chromatic_imap_cplus_plu.Flags.{Flags, Attributes}
use chromatic_imap_cplus_plu.Manager.Fetch.Requests.{FetchConst}

-- chromatic_mailbox_result
pub data MailboxResult : Type 0 where
  not_found already_exists success access_denied : MailboxResult

-- chromatic_imap_message
pub record Message : Type 0 where
  pub uid : ℤ
  pub size : ℤ
  pub url : Str
  pub file_url : Str
  pub offset : Str
  pub server : Str
  pub flags : Flags

-- chromatic_mailbox_info
pub record MailboxInfo : Type 0 where
  pub name : Str
  pub recent : ℤ
  pub unseen : ℤ
  pub first_unseen : ℤ
  pub exists : ℤ
  pub read_only : Bool
  pub flags : Flags
  pub changeable_flags : Flags
  pub uid_validity : Str
  pub uid_next : Str

-- chromatic_append_record
pub record AppendRecord : Type 0 where
  pub size : ℕ
  pub mbx : Str
  pub flags : Flags
  pub stream : Str

abbrev pub no_flags : Flags
no_flags = λ f. false

-- chromatic_imap_message()
abbrev pub new_message : Message
new_message = record {
  uid = pos 0;
  size = pos 0;
  url = [];
  file_url = [];
  offset = [];
  server = [];
  flags = no_flags;
}

-- chromatic_mailbox_info::clear()
abbrev pub clear_info : MailboxInfo
clear_info = record {
  name = [];
  recent = pos 0;
  unseen = pos 0;
  first_unseen = pos 0;
  exists = pos 0;
  read_only = false;
  flags = no_flags;
  changeable_flags = no_flags;
  uid_validity = [];
  uid_next = [];
}

-- chromatic_append_record::clear(), which leaves the stream.
abbrev pub clear_record : AppendRecord → AppendRecord
clear_record r = record r { size = 0; mbx = []; flags = no_flags }

-- chromatic_append_record()
abbrev pub new_append_record : AppendRecord
new_append_record = record { size = 0; mbx = []; flags = no_flags; stream = [] }

-- A value bound to a stored procedure: SACommand's operator<<.
pub data Argument : Type 0 where
  text : Str → Argument
  number : ℤ → Argument

-- SACommand::Execute with its rows, or the SAException it raises.
pub data Answer (Row : Type 0) : Type 0 where
  rows : List Row → Answer Row
  failed : Str → Answer Row

-- What is not the repository's code: the database (SQLAPI), the file system, and the functions
-- boost::format and boost::regex_match, which has no result where the expression is refused. `rollback` tells
-- whether it raises. The last two fields are
-- what a local variable holds that is read before it is set.
pub record World : Type 1 where
  pub Store : Type 0
  pub Row : Type 0
  pub execute : Str → List Argument → Store → Answer Row × Store
  pub as_long : Row → Str → ℤ
  pub as_string : Row → Str → Str
  pub rollback : Store → Bool × Store
  pub remove_file : Str → Store → Bool × Store
  pub format : Str → List Str → Str
  pub regex_match : Str → Str → Option Bool
  pub unset_long : ℤ
  pub unset_result : MailboxResult

-- std::map< std::string , .. > as the list of its entries in the order of their keys.
abbrev pub Table : Type 0 → Type 0
Table A = List (Str × A)

-- std::string's operator<
abbrev pub str_lt : Str → Str → Bool
str_lt s [] = false
str_lt [] (d ∷ t) = true
str_lt (c ∷ s) (d ∷ t) = if c == d then str_lt s t else ltb c d

module _ {A : Type 0} where
  -- map::insert, which keeps the value that a key has.
  unfoldable pub insert_entry : Str → A → Table A → Table A
  insert_entry key a [] = (key, a) ∷ []
  insert_entry key a (e ∷ es) =
      let rest = insert_entry key a es in
      if same key e.0 then e ∷ es else if str_lt key e.0 then (key, a) ∷ e ∷ es else e ∷ rest

  -- map::find
  unfoldable pub find_entry : Str → Table A → Option A
  find_entry key [] = none
  find_entry key (e ∷ es) = if same key e.0 then some e.1 else find_entry key es

-- ostr << long
abbrev pub show_long : ℤ → Str
show_long (pos n) = show n
show_long (negsuc n) = 45 ∷ show (suc n)

-- `fetch_map` is m_fetchMap. The names of the entries of `messages` are the message numbers.
pub record Manager (D : Type 0) : Type 0 where
  pub db : D
  pub user : Str
  pub user_domain : Str
  pub proxy_store : Str
  pub messages : Table Message
  pub info : MailboxInfo
  pub append_rec : AppendRecord
  pub max_uid : ℕ
  pub close_expunge : Bool
  pub uids : Bool
  pub fetch_map : List (FetchConst × Str)

-- chromatic_mailbox
pub record Mailbox : Type 0 where
  pub name : Str
  pub attributes : Attributes
  pub subscribed : Bool
