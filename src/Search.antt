-- ===== src/Search.antt =====
-- chromatic_imap/chromatic_imap_search.cpp: the criteria of a SEARCH, and the translation between uids
-- and message numbers. Names of messages are numbers, so that lexical_cast reads them.
pub mod RoundTrip
use chromatic_imap_cplus_plu.Prelude.{
  ℕ, Bool, not, List, [], ◌∷◌, Option, none, some, ◌==◌, if◌then◌else◌, ◌&&◌,
}
use chromatic_imap_cplus_plu.Prelude.Int.{ℤ, pos}
use chromatic_imap_cplus_plu.Text.{Str, codes, same, find, find_first_of, found, substr_len}
use chromatic_imap_cplus_plu.Text.Decimal.{digits_value, long_to_int}
use chromatic_imap_cplus_plu.Handler.Strings.{lcase}
use chromatic_imap_cplus_plu.MessageManip.{is_message_set}
use chromatic_imap_cplus_plu.Manager.Types.{Message, Table, find_entry, show_long}
use chromatic_imap_cplus_plu.Manager.Messages.{to_unsigned}

-- chromatic_search_keys
pub data SearchKeys : Type 0 where
  key_all key_text key_unsupported : SearchKeys

unfoldable pub search_key_to_str : SearchKeys → Str
search_key_to_str key_all = codes "all"
search_key_to_str key_text = codes "text"
search_key_to_str key_unsupported = codes "nil"

unfoldable pub str_to_search_key : Str → SearchKeys
unfolding lcase
str_to_search_key str =
    if same (lcase str) (codes "all")
    then key_all
    else if same (lcase str) (codes "text")
    then key_text
    else key_unsupported

-- chromatic_imap_search_criteria
pub record SearchCriteria : Type 0 where
  pub message_set : Str
  pub criteria : Str
  pub uid : Bool
  pub propagate_exceptions : Bool

abbrev message_set_all : Str
message_set_all = codes "1:*"

-- Is the key among `found_keys`, those whose name is the first word?
abbrev pub finds_key : SearchKeys → Str → Bool
finds_key key word = same (search_key_to_str key) word

-- The set of messages that the first word leaves, or the error it raises.
unfoldable pub choose_message_set : Str → ℤ → SearchCriteria → Option SearchCriteria
unfolding search_key_to_str is_message_set
choose_message_set word limit c =
    if not (finds_key key_all word) && not (finds_key key_text word)
    then if is_message_set word limit then some (record c { message_set = word }) else none
    else if finds_key key_all word
    then some (record c { message_set = message_set_all })
    else if same c.message_set (codes "nil")
    then some (record c { message_set = message_set_all })
    else some c

-- How the search of the criteria ends: with an error, or without.
pub data Searched : Type 0 where
  searched : SearchCriteria → Searched
  refused : Str → SearchCriteria → Searched

-- resolve_parenthetical_key, of which only the test for an engine is left; the numbers of the set,
-- which it is given, are not read.
unfoldable pub resolve_parenthetical_key : Bool → SearchCriteria → Searched
resolve_parenthetical_key initialized c =
    if initialized then searched c else refused (codes "search engine not initialized") c

-- The `try` block, for the criteria in lower case.
unfoldable pub resolve_source : Str → ℤ → Bool → SearchCriteria → Searched
unfolding choose_message_set resolve_parenthetical_key
resolve_source source limit initialized c =
    if found (find (codes ")") source)
    then searched c
    else elim (find_first_of (codes " ") source) [
      | none ↦ searched c
      | some idx ↦ elim (choose_message_set (substr_len 0 idx source) limit c) [
        | none ↦ refused (codes "search key not recognized") c
        | some chosen ↦ resolve_parenthetical_key initialized chosen
      ]
    ]

-- An error is raised again or dropped.
abbrev pub propagate : Searched → Searched
propagate (searched c) = searched c
propagate (refused what c) = if c.propagate_exceptions then refused what c else searched c

-- `limit` is the number of messages or the highest uid; `initialized` is m_bInitialized, which
-- the constructors set to false and nothing sets to true.
unfoldable pub deconstruct_criteria : ℕ → Bool → SearchCriteria → Searched
unfolding lcase resolve_source long_to_int
deconstruct_criteria limit initialized c =
    propagate (resolve_source (lcase c.criteria) (long_to_int (pos limit)) initialized c)

-- The map from uids to numbers, which keeps the first number for a uid.
unfoldable pub number_of_uid : ℕ → Table Message → Option ℕ
unfolding to_unsigned digits_value
number_of_uid uid [] = none
number_of_uid uid (entry ∷ rest) =
    if to_unsigned entry.1.uid == uid then some (digits_value 0 entry.0) else number_of_uid uid rest

unfoldable pub uids_to_message_numbers : Table Message → List ℤ → List ℤ
unfolding number_of_uid to_unsigned long_to_int
uids_to_message_numbers messages [] = []
uids_to_message_numbers messages (i ∷ v_ints) =
    let rest = uids_to_message_numbers messages v_ints in
    elim (number_of_uid (to_unsigned i) messages) [
      | none ↦ rest
      | some number ↦ long_to_int (pos number) ∷ rest
    ]

unfoldable pub message_numbers_to_uids : Table Message → List ℤ → List ℤ
unfolding find_entry long_to_int
message_numbers_to_uids messages [] = []
message_numbers_to_uids messages (i ∷ v_ints) =
    let rest = message_numbers_to_uids messages v_ints in
    elim (find_entry (show_long i) messages) [ none ↦ rest | some msg ↦ long_to_int msg.uid ∷ rest ]
