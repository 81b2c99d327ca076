-- ===== src/BodyStructure.antt =====
-- chromatic_imap_bodystructure/chromatic_imap_bodystructure.cpp: the types and character sets of the
-- parts of a message. The mail library (CkMime) is a parameter as far as it gives the tree of parts.
pub mod Traversal
use chromatic_imap_cplus_plu.Prelude.{
  ℕ, ◌+◌, Bool, true, false, List, [], ◌∷◌, ◌++◌, Option, none, some,
}
use chromatic_imap_cplus_plu.Text.{Str, codes, find, substr, substr_len}

-- What CkMime says of a message: its type, its character set and its parts, which `get_NumParts` counts and
-- `GetPart` gives from 0 on.
mutual
  pub data Mime : Type 0 where
    mime : Str → Str → MimeParts → Mime

  pub data MimeParts : Type 0 where
    no_parts : MimeParts
    part : Mime → MimeParts → MimeParts

-- _S, with its answer and its position in one.
unfoldable pub find_token : Str → Str → Option ℕ
find_token moniker token = find token moniker

unfoldable pub in_quotes : Str → Str
in_quotes s = codes "\"" ++ s ++ codes "\""

unfoldable pub splice : Str → Str → Str × Str
unfolding find_token in_quotes
splice category token = elim (find_token category token) [
  | none ↦ ([], [])
  | some sz ↦ (in_quotes (substr_len 0 sz category), in_quotes (substr (sz + 1) category))
]

-- The two lines of a part.
unfoldable pub part_lines : Str → Str → Str
unfolding splice
part_lines content_type charset =
    let pr = splice content_type (codes "/") in
    let cr = splice charset (codes "-") in
    codes "content-type:"
    ++ pr.0
    ++ codes " "
    ++ pr.1
    ++ codes "\ncharset:"
    ++ cr.0
    ++ codes " "
    ++ cr.1
    ++ codes "\n"

-- What is written to the stream; the numbers of the parts go to the standard output.
unfoldable mutual
  unfolding part_lines

  pub mime_traverse : Mime → Str
  mime_traverse (mime content_type charset parts) =
      part_lines content_type charset ++ traverse_parts parts

  pub traverse_parts : MimeParts → Str
  traverse_parts no_parts = []
  traverse_parts (part m parts) = mime_traverse m ++ traverse_parts parts
