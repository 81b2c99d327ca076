-- ===== src/Manager/Fetch/Answer.antt =====
-- `fetch_message` and `on_fetch` of chromatic_imap/chromatic_imap_mgr.cpp. The pause of 5 milliseconds
-- after a request is left out.
use chromatic_imap_cplus_plu.Prelude.{
  ℕ, ◌+◌, ◌^◌, ◌%◌, not, ◌&&◌, ◌||◌, Bool, true, false, List, [], ◌∷◌, ◌++◌, Option, none, some,
  if◌then◌else◌, length, take,
}
use chromatic_imap_cplus_plu.Prelude.Int.{ℤ}
use chromatic_imap_cplus_plu.Text.{Str, codes, same, find, found, is_empty}
use chromatic_imap_cplus_plu.Text.Decimal.{show}
use chromatic_imap_cplus_plu.Flags.{
  all_flags, Flags, MailMessageFlag, insert_flag, erase_flag, mbx_flags_to_str, recent, seen,
}
use chromatic_imap_cplus_plu.MessageManip.{extract_parenthetical_atoms}
use chromatic_imap_cplus_plu.Handler.Strings.{lcase, ucase, rtrim, extract_quoted_string}
use chromatic_imap_cplus_plu.Handler.Types.{Reply, returned, raised}
use chromatic_imap_cplus_plu.Manager.Types.{World, Manager, Message, show_long}
use chromatic_imap_cplus_plu.Manager.Messages.{to_unsigned, update_mailbox_info_by_db}
use chromatic_imap_cplus_plu.Manager.Responses.{line_end, fetch_response}
use chromatic_imap_cplus_plu.Manager.Fetch.Requests.{
  FetchConst, FetchRequest, request, fetch_string, parse_fetch_request_list, fetch_flags,
  fetch_internaldate, fetch_rfc822, fetch_rfc822size, fetch_rfc822text, fetch_all, fetch_full,
  fetch_fast, fetch_body, fetch_bodystructure, fetch_uid, fetch_bodypeek, fetch_header,
  fetch_headerfields,
}
use chromatic_imap_cplus_plu.Manager.Fetch.Mime.{
  Mime, Part, got, broken, wild, internal_date, fetch_envelope, fetch_body_structure, fetch_mime,
  fetch_rfc822_part, fetch_header_fields,
}
use chromatic_imap_cplus_plu.Manager.Fetch.Mime
use chromatic_imap_cplus_plu.Manager.Commands.Messages.{
  named_message, message_path, highest, requested, before_space, behind_space,
  set_message_flags_by_db,
}

abbrev pub keyword_requests : List FetchConst → List FetchRequest
keyword_requests [] = []
keyword_requests (c ∷ rest) = request (fetch_string c) ∷ keyword_requests rest

-- An aggregate keyword stands for its requests, and those that follow it are dropped. Of no
-- requests the first is read all the same: none.
unfoldable pub aggregate : List FetchRequest → Option (List FetchRequest)
unfolding fetch_string
aggregate [] = none
aggregate (r ∷ rest) = some (
    if same r.keyword (fetch_string fetch_fast)
    then keyword_requests (fetch_flags ∷ fetch_internaldate ∷ fetch_rfc822size ∷ [])
    else if same r.keyword (fetch_string fetch_all)
    then keyword_requests
        (fetch_flags ∷ fetch_internaldate ∷ fetch_rfc822size ∷ FetchConst.fetch_envelope ∷ [])
    else if same r.keyword (fetch_string fetch_full)
    then keyword_requests (
        fetch_flags ∷ fetch_internaldate ∷ fetch_rfc822size ∷ FetchConst.fetch_envelope ∷ fetch_body
        ∷ [])
    else r ∷ rest)

-- The entry of m_fetchMap for a keyword.
unfoldable pub find_keyword : Str → List (FetchConst × Str) → Option (FetchConst × Str)
find_keyword keyword [] = none
find_keyword keyword (entry ∷ rest) =
    if same entry.1 keyword then some entry else find_keyword keyword rest

-- The variables bPeek, msg, flags, strPayload and fetch_stream of the loop.
pub record Fetching : Type 0 where
  pub peek : Bool
  pub msg : Message
  pub flags : Flags
  pub payload : Str
  pub stream : Str

abbrev pub emit : Str → Fetching → Fetching
emit text st = record st { stream = st.stream ++ text }

abbrev pub parenthesized : Str → Str
parenthesized text = codes "(" ++ text ++ codes ")"

-- size + two, an unsigned long, in braces
abbrev pub literal_size : ℕ → Str
literal_size size = codes "{" ++ show ((size + 2) % 2 ^ 64) ++ codes "}"

unfoldable pub answer_flags : Str → Fetching → Fetching
unfolding mbx_flags_to_str
answer_flags name st =
    let marked = insert_flag seen st.flags in
    let next =
      if st.peek
      then st
      else record st { flags = marked; msg = record st.msg { flags = marked } } in
    emit (name ++ codes " " ++ parenthesized (mbx_flags_to_str next.msg.flags) ++ codes " ") next

abbrev pub agree : List MailMessageFlag → Flags → Flags → Bool
agree [] f g = true
agree (x ∷ rest) f g = (if f x then g x else not (g x)) && agree rest f g

abbrev pub same_flags : Flags → Flags → Bool
same_flags f g = agree all_flags f g

module _ (w : World) (library : Mime w.Store) where
  open w use {Store}

  -- `strPayload` for a section with ".header" in it, which may stay what it was.
  unfoldable pub part_header : Str → Str → Str → Store → Part Str
  unfolding Mime.fetch_header fetch_header_fields fetch_string
  part_header path param payload db = elim (find (codes ".header") param) [
    | none ↦ got payload
    | some idx ↦
        let after = take (idx + 1) param in
        if same after (fetch_string fetch_header)
        then Mime.fetch_header library path (take idx param) true db
        else if found (find (fetch_string fetch_header) after)
        then fetch_header_fields library path param db
        else got payload
  ]

  -- The answer that ends the branch of `body`.
  unfoldable pub answer_section : Str → Fetching → Fetching
  unfolding fetch_string ucase
  answer_section section st =
      emit
        (ucase (fetch_string fetch_body)
          ++ codes "["
          ++ section
          ++ codes "] "
          ++ literal_size (length st.payload)
          ++ line_end
          ++ st.payload
          ++ line_end
          ++ codes " ")
        st

  abbrev pub section_name : FetchRequest → Str
  section_name r = if same r.param (codes "nil") then [] else lcase r.param

  abbrev pub with_payload : FetchRequest → Fetching → Part Str → Part Fetching
  with_payload r st (got payload) =
      got (answer_section (section_name r) (record st { payload = payload }))
  with_payload r st broken = broken
  with_payload r st wild = wild

  -- body and bodypeek
  unfoldable pub answer_body : Bool → Str → FetchRequest → Store → Fetching → Part Fetching
  unfolding fetch_string Mime.fetch_header fetch_header_fields part_header fetch_mime answer_section
      ucase lcase fetch_body_structure
  answer_body peeking path r db st =
      let lowered = lcase r.param in
      if same lowered (fetch_string fetch_header)
      then with_payload r st (Mime.fetch_header library path [] false db)
      else if found (find (fetch_string fetch_headerfields) lowered)
      then with_payload r st (fetch_header_fields library path r.param db)
      else if found (find (codes ".header") lowered)
      then with_payload r st (part_header path r.param st.payload db)
      else if is_empty r.param
      then got (
          emit
            (ucase (fetch_string fetch_body)
              ++ codes " "
              ++ parenthesized (fetch_body_structure path)
              ++ codes " ")
            st)
      else with_payload r
          (if peeking then record st { flags = insert_flag seen st.msg.flags } else st)
          (fetch_mime library path (section_name r) db)

  -- The `switch`, for the entry found.
  unfoldable pub answer_request :
      Bool → Str → FetchConst × Str → FetchRequest → Store → Fetching → Part Fetching
  unfolding answer_flags answer_body internal_date fetch_envelope fetch_body_structure
      fetch_rfc822_part ucase to_unsigned
  answer_request uids path (fetch_flags, text) r db st = got (answer_flags (ucase text) st)
  answer_request uids path (fetch_internaldate, text) r db st =
      got (emit (ucase text ++ codes " \"" ++ internal_date path ++ codes "\" ") st)
  answer_request uids path (fetch_rfc822size, text) r db st =
      got (emit (ucase text ++ codes " " ++ show_long st.msg.size ++ codes " ") st)
  answer_request uids path (FetchConst.fetch_envelope, text) r db st =
      got (emit (ucase text ++ codes " " ++ parenthesized (fetch_envelope path) ++ codes " ") st)
  answer_request uids path (fetch_bodystructure, text) r db st =
      got (
        emit (ucase text ++ codes " " ++ parenthesized (fetch_body_structure path) ++ codes " ") st)
  answer_request uids path (fetch_uid, text) r db st =
      got (
        if uids then st else emit (ucase text ++ codes " " ++ show_long st.msg.uid ++ codes " ") st)
  answer_request uids path (fetch_rfc822, text) r db st = got (
      emit
        (ucase text
          ++ codes " "
          ++ literal_size (to_unsigned st.msg.size)
          ++ line_end
          ++ fetch_rfc822_part library path text db
          ++ codes " ")
        st)
  answer_request uids path (fetch_rfc822text, text) r db st =
      let payload = fetch_rfc822_part library path text db in
      got (
        emit
          (ucase text
            ++ codes " "
            ++ literal_size (length payload)
            ++ line_end
            ++ payload
            ++ codes " ")
          (record st { flags = insert_flag seen st.msg.flags }))
  answer_request uids path (fetch_bodypeek, text) r db st =
      answer_body true path r db (record st { peek = true })
  answer_request uids path (fetch_body, text) r db st = answer_body false path r db st
  answer_request uids path _ r db st = broken

  unfoldable pub answer_requests :
      Bool → Str → List (FetchConst × Str) → List FetchRequest → Store → Fetching → Part Fetching
  unfolding find_keyword answer_request lcase
  answer_requests uids path table [] db st = got st
  answer_requests uids path table (r ∷ rest) db st = elim (find_keyword (lcase r.keyword) table) [
    | none ↦ broken
    | some entry ↦ elim (answer_request uids path entry r db st) [
      | got next ↦ answer_requests uids path table rest db next
      | broken ↦ broken
      | wild ↦ wild
    ]
  ]

  -- The end of `fetch_message`: the flags are written where they have changed.
  unfoldable pub finish_message : Str → Message → Fetching → Manager Store → Reply (Manager Store)
  unfolding rtrim fetch_response set_message_flags_by_db
  finish_message name before st m =
      let answer = fetch_response name (rtrim st.stream (codes " ")) in
      let flags = erase_flag recent st.flags in
      if same_flags before.flags flags
      then returned true answer m
      else let r = set_message_flags_by_db w before.file_url flags m in
        if r.0 then raised (codes "access denied") [] r.1 else returned true answer r.1

  -- None is undefined behaviour. The requests are changed for the messages that follow, too.
  unfoldable pub fetch_message :
      ℕ → List FetchRequest → Manager Store → Option (List FetchRequest × Reply (Manager Store))
  unfolding named_message aggregate answer_requests finish_message
  fetch_message msg_id requests m =
      let entry = named_message msg_id m in
      let msg = entry.1 in
      let start = if m.uids then codes "UID " ++ show_long msg.uid ++ codes " " else [] in
      elim (aggregate requests) [
        | none ↦ none
        | some all_requests ↦
            elim (answer_requests m.uids (message_path w m.proxy_store msg) m.fetch_map all_requests
              m.db
              (record {
                peek = false;
                msg = msg;
                flags = msg.flags;
                payload = [];
                stream = start;
              })) [
                | wild ↦ none
                | broken ↦ some (all_requests, raised (codes "parse error in fetch") [] m)
                | got st ↦ some (all_requests, finish_message entry.0 msg st m)
              ]
      ]

  unfoldable pub fetch_each :
      List ℤ → List FetchRequest → Str → Manager Store → Option (Reply (Manager Store))
  unfolding fetch_message to_unsigned
  fetch_each [] requests ostr m = some (returned true ostr m)
  fetch_each (n ∷ rest) requests ostr m = elim (fetch_message (to_unsigned n) requests m) [
    | none ↦ none
    | some answer ↦ elim answer.1 [
      | returned ok written next ↦ fetch_each rest answer.0 (ostr ++ written) next
      | raised what written next ↦ some (raised what ostr next)
    ]
  ]

  -- `atoms`, without its parentheses where it has no bracket.
  unfoldable pub fetch_atoms : Str → Str
  unfolding extract_parenthetical_atoms extract_quoted_string
  fetch_atoms params =
      let atoms = behind_space params in
      extract_quoted_string
        (if found (find (codes "]") atoms) then atoms else extract_parenthetical_atoms atoms)

  unfoldable pub on_fetch : Str → Str → Manager Store → Option (Reply (Manager Store))
  unfolding fetch_atoms extract_quoted_string update_mailbox_info_by_db requested
      parse_fetch_request_list fetch_each
  on_fetch params fmt m =
      let message_set = extract_quoted_string (before_space params) in
      let atoms = fetch_atoms params in
      if is_empty message_set || is_empty atoms
      then some (raised (codes "fetch parse error") [] m)
      else let next = update_mailbox_info_by_db w m.info.name false m in
        elim (parse_fetch_request_list atoms) [
          | none ↦ none
          | some requests ↦
              fetch_each (requested next.uids (highest next) message_set next.messages) requests []
                next
        ]
