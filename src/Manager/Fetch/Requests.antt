-- ===== src/Manager/Fetch/Requests.antt =====
-- The requests of a FETCH: `parse_fetch_request_list` of chromatic_imap/chromatic_imap_mgr.cpp, and the
-- dictionary of their names in chromatic_imap_strings/chromatic_strings.cpp.
use chromatic_imap_cplus_plu.Prelude.{
  ℕ, ◌==◌, not, ◌&&◌, Bool, true, false, List, [], ◌∷◌, ◌++◌, Option, none, some, if◌then◌else◌,
}
use chromatic_imap_cplus_plu.Text.{Str, codes, is_empty}
use chromatic_imap_cplus_plu.Handler.Strings.{lcase, ltrim, rtrim, extract_quoted_string}

-- chromatic_imap_fetch_const
pub data FetchConst : Type 0 where
  fetch_flags fetch_internaldate fetch_rfc822 fetch_rfc822size fetch_rfc822text : FetchConst
  fetch_all fetch_envelope fetch_full fetch_fast fetch_body fetch_bodystructure : FetchConst
  fetch_uid fetch_bodypeek fetch_header fetch_headerfields fetch_unknown : FetchConst

-- chromatic_fetch_strings::_R
unfoldable pub fetch_string : FetchConst → Str
fetch_string fetch_flags = codes "flags"
fetch_string fetch_internaldate = codes "internaldate"
fetch_string fetch_rfc822 = codes "rfc822"
fetch_string fetch_rfc822size = codes "rfc822.size"
fetch_string fetch_rfc822text = codes "rfc822.text"
fetch_string fetch_all = codes "all"
fetch_string fetch_envelope = codes "envelope"
fetch_string fetch_full = codes "full"
fetch_string fetch_fast = codes "fast"
fetch_string fetch_body = codes "body"
fetch_string fetch_bodystructure = codes "bodystructure"
fetch_string fetch_uid = codes "uid"
fetch_string fetch_bodypeek = codes "bodypeek"
fetch_string fetch_header = codes "header"
fetch_string fetch_headerfields = codes "header.fields"
fetch_string fetch_unknown = codes "unknown"

-- chromatic_imap_fetch_request, with `param` its second part.
pub record FetchRequest : Type 0 where
  pub keyword : Str
  pub param : Str

abbrev pub request : Str → FetchRequest
request keyword = record { keyword = keyword; param = [] }

-- requests[requests.size() - 1].second = param; of no request it writes outside of the vector.
unfoldable pub set_last_param : Str → List FetchRequest → Option (List FetchRequest)
set_last_param param [] = none
set_last_param param (r ∷ []) = some (record r { param = param } ∷ [])
set_last_param param (r ∷ q ∷ rest) = elim (set_last_param param (q ∷ rest)) [
  | none ↦ none
  | some rs ↦ some (r ∷ rs)
]

-- The variables bParams, bNull and s of the loop.
pub record Scan : Type 0 where
  pub in_params : Bool
  pub reset : Bool
  pub word : Str
  pub requests : List FetchRequest

abbrev pub scan_start : Scan
scan_start = record { in_params = false; reset = false; word = []; requests = [] }

-- A word that ends adds a request for `keyword`, unless it is empty.
abbrev pub push_word : Str → Str → List FetchRequest → List FetchRequest
push_word word keyword requests =
    if is_empty word then requests else requests ++ request keyword ∷ []

unfoldable pub scan_space : Scan → Scan
unfolding lcase extract_quoted_string
scan_space st = if st.in_params then record st { word = st.word ++ b' ' ∷ [] } else record st {
  reset = true;
  requests = push_word st.word (lcase (extract_quoted_string st.word)) st.requests;
  word = [];
}

-- The result of `lcase` is dropped here: the keyword keeps its case.
unfoldable pub scan_open : Scan → Scan
unfolding extract_quoted_string
scan_open st = record st {
  in_params = true;
  reset = true;
  requests = push_word st.word (extract_quoted_string st.word) st.requests;
  word = [];
}

abbrev pub closed : Scan → List FetchRequest → Scan
closed st requests = record { in_params = false; reset = true; word = []; requests = requests }

unfoldable pub scan_close : Scan → Option Scan
unfolding set_last_param extract_quoted_string
scan_close st =
    if is_empty st.word
    then elim (set_last_param (codes "nil") st.requests) [
      | none ↦ none
      | some requests ↦ some (closed st requests)
    ]
    else if st.in_params && st.reset
    then elim (set_last_param (extract_quoted_string st.word) st.requests) [
      | none ↦ none
      | some requests ↦ some (closed st requests)
    ]
    else some (closed st st.requests)

unfoldable pub scan_byte : ℕ → Scan → Option Scan
unfolding scan_space scan_open scan_close
scan_byte c st =
    if c == b' '
    then some (scan_space st)
    else if c == b'['
    then some (scan_open st)
    else if c == b']'
    then scan_close st
    else some (record st { word = st.word ++ c ∷ [] })

unfoldable pub scan_all : Str → Scan → Option Scan
unfolding scan_byte
scan_all [] st = some st
scan_all (c ∷ source) st = elim (scan_byte c st) [ none ↦ none | some next ↦ scan_all source next ]

unfoldable pub scan_end : Scan → List FetchRequest
unfolding lcase
scan_end st =
    if not st.in_params && not (is_empty st.word)
    then st.requests ++ request (lcase st.word) ∷ []
    else st.requests

-- The requests, or none where the source writes outside of the vector.
unfoldable pub parse_fetch_request_list : Str → Option (List FetchRequest)
unfolding ltrim rtrim scan_all scan_end
parse_fetch_request_list request_text =
    elim (scan_all (rtrim (ltrim request_text (codes "(")) (codes ")")) scan_start) [
      | none ↦ none
      | some st ↦ some (scan_end st)
    ]
