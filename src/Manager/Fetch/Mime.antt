-- ===== src/Manager/Fetch/Mime.antt =====
-- The parts of a message that FETCH shows, from chromatic_imap/chromatic_imap_mgr.cpp. The mail library
-- (CkMime) and boost::lexical_cast are parameters.
use chromatic_imap_cplus_plu.Prelude.{
  ℕ, ◌+◌, not, Bool, true, false, List, [], ◌∷◌, ◌++◌, Option, none, some, if◌then◌else◌, length,
  drop,
}
use chromatic_imap_cplus_plu.Prelude.Int.{ℤ, pos, negsuc, ◌+ℤ◌}
use chromatic_imap_cplus_plu.Text.{Str, codes, same, find, found, is_empty, c_str}
use chromatic_imap_cplus_plu.Text.Decimal.{long_to_int}
use chromatic_imap_cplus_plu.Tokenizer.{safe_tokenize}
use chromatic_imap_cplus_plu.MessageManip.{extract_parenthetical_atoms}
use chromatic_imap_cplus_plu.Handler.Strings.{lcase, ltrim}
use chromatic_imap_cplus_plu.Manager.Types.{Table, insert_entry}
use chromatic_imap_cplus_plu.Manager.Responses.{line_end}
use chromatic_imap_cplus_plu.Manager.Fetch.Requests.{fetch_string, fetch_rfc822, fetch_rfc822text}

-- CkMime on what is stored at a path, and lexical_cast<unsigned long>, which raises on `none`.
-- `part` counts from 0, and gives NULL as `none`.
pub record Mime (D : Type 0) : Type 1 where
  pub Entity : Type 0
  pub unlocked : Bool
  pub load : Str → D → Entity
  pub blank : Entity
  pub entire_head : Entity → Str
  pub entire_body : Entity → Str
  pub whole : Entity → Str
  pub part : ℤ → Entity → Option Entity
  pub fields : Entity → Table Str
  pub as_unsigned : Str → Option ℕ

-- What such a method gives, the error "parse error in fetch", or undefined behaviour: a pointer
-- that is NULL or not set.
pub data Part (A : Type 0) : Type 0 where
  got : A → Part A
  broken : Part A
  wild : Part A

abbrev pub then_part : {A B : Type 0} → Part A → (A → B) → Part B
then_part (got a) f = got (f a)
then_part broken f = broken
then_part wild f = wild

-- internal_date, fetch_envelope and fetch_body_structure, whose work is commented out.
unfoldable pub internal_date : Str → Str
internal_date path = []

unfoldable pub fetch_envelope : Str → Str
fetch_envelope path = []

unfoldable pub fetch_body_structure : Str → Str
fetch_body_structure path = []

-- The names that `parse_header_field_params` collects.
abbrev pub all_lcase : List Str → List Str
all_lcase [] = []
all_lcase (s ∷ rest) = lcase s ∷ all_lcase rest

unfoldable pub parse_header_field_params : Str → List Str
unfolding extract_parenthetical_atoms safe_tokenize lcase
parse_header_field_params source =
    all_lcase (safe_tokenize (extract_parenthetical_atoms source) (codes " "))

abbrev pub holds : Str → List Str → Bool
holds s [] = false
holds s (t ∷ rest) = if same s t then true else holds s rest

-- The lines for the fields asked for.
unfoldable pub header_lines : List Str → Table Str → Str
unfolding lcase
header_lines asked [] = []
header_lines asked (f ∷ rest) =
    (if holds (lcase f.0) asked then f.0 ++ codes ": " ++ f.1 ++ line_end else [])
    ++ header_lines asked rest

module _ {D : Type 0} (library : Mime D) where
  open library use {
    Entity, unlocked, load, blank, entire_head, entire_body, whole, part, fields, as_unsigned,
  }

  -- The loop that goes down to a part, `mimeIdx` = `mimeQdx` after its first turn.
  unfoldable pub go_down : List Str → Entity → Part Entity
  unfolding long_to_int ◌+ℤ◌
  go_down [] e = got e
  go_down (name ∷ rest) e = elim (as_unsigned name) [
    | none ↦ broken
    | some n ↦ elim (part (long_to_int (pos n +ℤ negsuc 0)) e) [
      | none ↦ wild
      | some next ↦ go_down rest next
    ]
  ]

  -- Without a turn `mimeQdx` is not set.
  unfoldable pub part_at : List Str → Entity → Part Entity
  unfolding go_down
  part_at [] e = wild
  part_at (name ∷ rest) e = go_down (name ∷ rest) e

  -- Of a part, the header is looked for in a new object, which has nothing loaded.
  unfoldable pub fetch_header : Str → Str → Bool → D → Part Str
  unfolding safe_tokenize part_at
  fetch_header path params is_part db =
      if not unlocked
      then got []
      else if not is_part
      then got (entire_head (load (c_str path) db))
      else then_part (part_at (safe_tokenize params (codes ".")) blank) entire_head

  unfoldable pub fetch_mime : Str → Str → D → Part Str
  unfolding safe_tokenize part_at
  fetch_mime path mime_part db =
      if not unlocked
      then got []
      else if is_empty mime_part
      then got (whole (load (c_str path) db))
      else then_part (part_at (safe_tokenize mime_part (codes ".")) (load (c_str path) db))
          entire_body

  unfoldable pub fetch_rfc822_part : Str → Str → D → Str
  unfolding fetch_string
  fetch_rfc822_part path command db =
      if not unlocked
      then []
      else if same command (fetch_string fetch_rfc822)
      then whole (load (c_str path) db)
      else if same command (fetch_string fetch_rfc822text ++ codes ".text")
      then entire_body (load (c_str path) db)
      else []

  abbrev pub collect_fields : Table Str → Table Str → Table Str
  collect_fields [] table = table
  collect_fields (f ∷ rest) table = collect_fields rest (insert_entry f.0 f.1 table)

  -- `str` of `fetch_header_fields_mime`
  abbrev pub behind_token : Str → Str
  behind_token str = elim (find (codes "header.fields") str) [
    | none ↦ str
    | some idx ↦ drop (idx + length (codes "header.fields")) str
  ]

  unfoldable pub fetch_header_fields_mime : Str → Str → D → Part (Table Str)
  unfolding lcase ltrim safe_tokenize part_at insert_entry
  fetch_header_fields_mime path params db =
      let str = ltrim (behind_token (lcase params)) (codes " ") in
      let mime = load (c_str path) db in
      if not unlocked
      then got []
      else if not (found (find (codes ".") str))
      then got (collect_fields (fields mime) [])
      else then_part (part_at (safe_tokenize str (codes ".")) mime)
          (λ e. collect_fields (fields e) [])

  unfoldable pub fetch_header_fields : Str → Str → D → Part Str
  unfolding parse_header_field_params fetch_header_fields_mime header_lines
  fetch_header_fields path params db =
      then_part (fetch_header_fields_mime path params db)
        (header_lines (parse_header_field_params params))
