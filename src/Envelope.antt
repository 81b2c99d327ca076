-- ===== src/Envelope.antt =====
-- chromatic_imap_envelope_lib/chromatic_imap_envelope.cpp: the envelope of a message, written for a client.
-- The mail libraries (CkMime and CkEmail) are parameters. The stream is what has been written to it.
pub mod Endings
use chromatic_imap_cplus_plu.Prelude.{
  ℕ, zero, suc, ◌+◌, ◌-◌, ◌%◌, ◌^◌, Bool, true, false, ◌&&◌, List, [], ◌∷◌, ◌++◌, Option, none,
  some, ◌==◌, leb, if◌then◌else◌, take, drop, length,
}
use chromatic_imap_cplus_plu.Text.{Str, codes, one_of, find, found, is_empty}

-- How the writing of a part ends: with the stream, with the null pointer that a std::string is made of,
-- which is undefined, or not within the turns given.
pub data Writing : Type 0 where
  written : Str → Writing
  null_text : Writing
  no_end : Writing

infixl 5 ◌>>=◌
abbrev pub ◌>>=◌ : Writing → (Str → Writing) → Writing
written out >>= next = next out
null_text >>= next = null_text
no_end >>= next = no_end

-- What CkMime and CkEmail say of a message. A field comes with whether the message has it, and the texts of
-- a recipient may be null.
pub record Mail : Type 0 where
  pub mime_field : Str → Bool × Str
  pub email_field : Str → Bool × Str
  pub from_name : Str
  pub from_address : Str
  pub num_to : ℕ
  pub to_name : ℕ → Option Str
  pub to_addr : ℕ → Option Str
  pub num_cc : ℕ
  pub cc_name : ℕ → Option Str
  pub cc_addr : ℕ → Option Str
  pub num_bcc : ℕ
  pub bcc_name : ℕ → Option Str
  pub bcc_addr : ℕ → Option Str

pub data AddrType : Type 0 where
  at_from at_to at_reply_to at_sender at_cc at_bcc at_group at_no_more_addrs : AddrType

-- boost::algorithm::trim, in the classic locale.
abbrev pub trim_left : Str → Str
trim_left [] = []
trim_left (c ∷ s) = if one_of (codes " \t\n\u{b}\u{c}\r") c then trim_left s else c ∷ s

abbrev pub trim_right : Str → Str
trim_right [] = []
trim_right (c ∷ s) =
    let rest = trim_right s in
    if is_empty rest && one_of (codes " \t\n\u{b}\u{c}\r") c then [] else c ∷ rest

abbrev pub trim : Str → Str
trim s = trim_right (trim_left s)

-- The moniker of a group, `none` where the address names no group.
unfoldable pub check_for_group_addr : Str → Option Str
check_for_group_addr addr = elim (find (codes ":") addr) [
  | none ↦ none
  | some sz ↦ some (trim (take sz addr))
]

unfoldable pub addr_atom : Str → Str
addr_atom line = if is_empty line then codes "NIL " else codes "\"" ++ line ++ codes "\" "

unfoldable pub single_addr_line : Str → Str
single_addr_line moniker = codes "( (" ++ moniker ++ codes ") )\n"

unfoldable pub multiple_addr_lines : Str → Str
multiple_addr_lines moniker = codes "(" ++ moniker ++ codes ")\n"

unfoldable pub nil_addr_line : Str
nil_addr_line = codes "NIL\n"

-- The address starts at the left angle and has as many bytes as the right one has before it. A
-- moniker with a quote is written alone: the rest hangs on the other branch of the conditional.
unfoldable pub single_sender_addr_line : Str → Str
unfolding single_addr_line
single_sender_addr_line sender = elim (find (codes "<") sender) [
  | none ↦ []
  | some sz ↦
      let addr : Str = elim (find (codes ">") (drop sz sender)) [
        | none ↦ []
        | some k ↦ take (sz + k) (drop sz sender)
      ] in
      let moniker = trim (take sz sender) in
      single_addr_line (
        if found (find (codes "\"") moniker)
        then moniker
        else codes "\"" ++ moniker ++ codes "\" NIL NIL \"" ++ addr ++ codes "\"")
]

unfoldable pub friendly_name : Str → Str
friendly_name moniker = elim (find (codes "@") moniker) [
  | none ↦ moniker
  | some sz ↦ take sz moniker
]

-- The four atoms of an address.
unfoldable pub addr_atoms : Str → Str → Str
unfolding addr_atom friendly_name
addr_atoms name address =
    trim (addr_atom name ++ addr_atom [] ++ addr_atom (friendly_name address) ++ addr_atom address)

unfoldable pub addr_lines : List (Str × Str) → Str
unfolding multiple_addr_lines addr_atoms
addr_lines [] = []
addr_lines (a ∷ rest) = multiple_addr_lines (addr_atoms a.0 a.1) ++ addr_lines rest

unfoldable pub process_multiple_addrs : List (Str × Str) → Str
unfolding single_addr_line addr_atoms addr_lines
process_multiple_addrs [] = []
process_multiple_addrs (a ∷ []) = single_addr_line (addr_atoms a.0 a.1)
process_multiple_addrs (a ∷ b ∷ rest) = codes "( " ++ addr_lines (a ∷ b ∷ rest) ++ codes " )\n"

-- The pair of strings made of two texts.
abbrev pub texts : Option Str × Option Str → Option (Str × Str)
texts (none, _) = none
texts (some first, none) = none
texts (some first, some second) = some (first, second)

-- The loop over the recipients up to `last` = dw - 1, from `i` on, of 64 bits each. The recipients so far are
-- written again with each new one.
unfoldable pub recipients :
    ℕ → ℕ → ℕ → (ℕ → Option Str × Option Str) → List (Str × Str) → Str → Writing
unfolding process_multiple_addrs
recipients zero last i apr actr out = no_end
recipients (suc n) last i apr actr out = elim (leb i last) [
  | false ↦ written out
  | true ↦ elim (texts (apr i)) [
    | none ↦ null_text
    | some a ↦
        let more = actr ++ a ∷ [] in
        recipients n last ((i + 1) % 2 ^ 64) apr more (out ++ process_multiple_addrs more)
  ]
]

-- dw - 1
unfoldable pub last_of : ℕ → ℕ
last_of dw = (dw + (2 ^ 64 - 1)) % 2 ^ 64

-- CC and BCC
unfoldable pub copies : ℕ → ℕ → (ℕ → Option Str × Option Str) → Str → Writing
unfolding recipients last_of nil_addr_line
copies n dw apr out =
    if dw == 0 then written (out ++ nil_addr_line) else recipients n (last_of dw) 0 apr [] out

module _ (n : ℕ) (mail : Mail) where
  open mail use {
    mime_field, email_field, from_name, from_address, num_to, to_name, to_addr, num_cc, cc_name,
    cc_addr, num_bcc, bcc_name, bcc_addr,
  }

  -- The case of atTo, atCC and atBCC. The pairs of CC and BCC have the address first.
  unfoldable pub fetch_recipients : Str → Writing
  unfolding recipients last_of copies
  fetch_recipients out = do
    to ← recipients n (last_of num_to) 0 (λ i. (to_name i, to_addr i)) [] out
    cc ← copies n num_cc (λ i. (cc_addr i, cc_name i)) to
    copies n num_bcc (λ i. (bcc_addr i, bcc_name i)) cc

  -- The line of SENDER and of REPLY-TO, where `cached` is the line of FROM.
  unfoldable pub field_addr_line : Str → Str → Str
  unfolding single_addr_line single_sender_addr_line
  field_addr_line field cached =
      let f = email_field field in
      if f.0 then single_sender_addr_line f.1 else single_addr_line cached

  -- The lines of atFrom, atSender and atReplyTo.
  unfoldable pub from_lines : Str
  unfolding field_addr_line single_addr_line addr_atoms
  from_lines =
      let cached = addr_atoms from_name from_address in
      single_addr_line cached
      ++ field_addr_line (codes "Sender") cached
      ++ field_addr_line (codes "Reply-To") cached

  -- The loop over the kinds of address. A group changes nothing, so that the loop does not end.
  unfoldable pub fetch_addrs : AddrType → Str → Writing
  unfolding fetch_recipients field_addr_line from_lines
  fetch_addrs at_no_more_addrs out = written out
  fetch_addrs at_group out = no_end
  fetch_addrs at_to out = fetch_recipients out
  fetch_addrs at_cc out = fetch_recipients out
  fetch_addrs at_bcc out = fetch_recipients out
  fetch_addrs at_reply_to out = fetch_recipients (out ++ field_addr_line (codes "Reply-To") [])
  fetch_addrs at_sender out =
      fetch_recipients
        (out ++ field_addr_line (codes "Sender") [] ++ field_addr_line (codes "Reply-To") [])
  fetch_addrs at_from out = fetch_recipients (out ++ from_lines)

  -- str_env_field_to_stream
  unfoldable pub str_env_field : Str → Str
  str_env_field field =
      let f = mime_field field in
      (if f.0 && is_empty f.1
        then codes "\"\""
        else if is_empty f.1
        then codes "NIL"
        else codes "\"" ++ f.1 ++ codes "\"")
      ++ codes "\n"

  unfoldable pub write_envelope : Writing
  unfolding str_env_field fetch_addrs
  write_envelope = do
    out ← fetch_addrs at_from (str_env_field (codes "Date") ++ str_env_field (codes "Subject"))
    written (out ++ str_env_field (codes "In-Reply-To") ++ str_env_field (codes "Message-ID"))

-- How a run of `parse` ends: with what it wrote, at an assertion, at a null pointer, or not within the turns
-- given.
pub data Parsed : Type 0 where
  wrote : Str → Parsed
  aborted : Parsed
  undefined : Parsed
  unfinished : Parsed

unfoldable pub parse : ℕ → (Str → Option Mail) → Str → Parsed
unfolding write_envelope
parse n load filename = elim (load filename) [
  | none ↦ aborted
  | some mail ↦ elim (write_envelope n mail) [
    | written out ↦ wrote out
    | null_text ↦ undefined
    | no_end ↦ unfinished
  ]
]
