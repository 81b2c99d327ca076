-- ===== src/BodyStructure/Traversal.antt =====
-- What is written of a message by chromatic_imap_bodystructure/chromatic_imap_bodystructure.cpp.
use chromatic_imap_cplus_plu.Prelude.{
  All, sym, ℕ, ◌≡◌, refl, ap, ◌∙◌, List, [], ◌∷◌, ◌++◌, append_assoc, take-length, drop-length_one,
}
use chromatic_imap_cplus_plu.Text.{Str, codes}
use chromatic_imap_cplus_plu.Handler.Strings.Laws.{Without, find-at}
use chromatic_imap_cplus_plu.BodyStructure.{
  Mime, mime, MimeParts, no_parts, part, in_quotes, splice, part_lines, mime_traverse,
  traverse_parts,
}

-- A text at the first byte of a kind is spliced into what stands before it and what stands behind it.
splice-join :
    (c : ℕ) (a b : Str) → Without c a → splice (a ++ c ∷ b) (c ∷ []) ≡ (in_quotes a, in_quotes b)
unfolding splice
splice-join c a b h =
    rw (find-at c a b h, splice) (rw (take-length a (c ∷ b), drop-length_one a b c) refl)

-- The names of a part: type, subtype, and the two sides of its character set.
pub record Names : Type 0 where
  pub main_type : Str
  pub subtype : Str
  pub family : Str
  pub variant : Str

-- A message by the names of its parts.
mutual
  pub data NamedPart : Type 0 where
    named : Names → NamedParts → NamedPart

  pub data NamedParts : Type 0 where
    done : NamedParts
    more : NamedPart → NamedParts → NamedParts

abbrev pub AreNames : Names → Type 0
AreNames n = Without b'/' n.main_type × Without b'-' n.family

unfoldable mutual
  -- The message as CkMime has it, "type/subtype" and a character set with a dash.
  pub to_mime : NamedPart → Mime
  to_mime (named n parts) =
      mime (n.main_type ++ b'/' ∷ n.subtype) (n.family ++ b'-' ∷ n.variant) (to_parts parts)

  pub to_parts : NamedParts → MimeParts
  to_parts done = no_parts
  to_parts (more m parts) = part (to_mime m) (to_parts parts)

-- The parts in order, each in front of those in it.
unfoldable mutual
  pub in_order : NamedPart → List Names
  in_order (named n parts) = n ∷ in_order_all parts

  pub in_order_all : NamedParts → List Names
  in_order_all done = []
  in_order_all (more m parts) = in_order m ++ in_order_all parts

unfoldable pub lines : List Names → Str
lines [] = []
lines (n ∷ rest) =
    codes "content-type:\""
    ++ n.main_type
    ++ codes "\" \""
    ++ n.subtype
    ++ codes "\"\ncharset:\""
    ++ n.family
    ++ codes "\" \""
    ++ n.variant
    ++ codes "\"\n"
    ++ lines rest

lines-append : (xs ys : List Names) → lines (xs ++ ys) ≡ lines xs ++ lines ys
unfolding lines
lines-append [] ys = refl
lines-append (x ∷ xs) ys = simp (lines-append xs ys, append_assoc)

part_lines-names :
    (n : Names) (rest : Str)
    → AreNames n
    → part_lines (n.main_type ++ b'/' ∷ n.subtype) (n.family ++ b'-' ∷ n.variant) ++ rest
      ≡ lines (n ∷ []) ++ rest
unfolding part_lines lines in_quotes
part_lines-names n rest h =
    rw
      (
        part_lines,
        splice-join b'/' n.main_type n.subtype h.0,
        splice-join b'-' n.family n.variant h.1,
      )
      (simp append_assoc)

All-parts : (xs ys : List Names) → All AreNames (xs ++ ys) → All AreNames xs × All AreNames ys
All-parts [] ys h = (tt, h)
All-parts (x ∷ xs) ys h = let rest = All-parts xs ys h.1 in ((h.0, rest.0), rest.1)

mutual
  unfolding to_mime in_order mime_traverse lines

  traverse_part-lines :
      (m : NamedPart) → All AreNames (in_order m) → mime_traverse (to_mime m) ≡ lines (in_order m)
  traverse_part-lines (named n parts) h =
      part_lines-names n _ h.0
      ∙ ap (λ (s : Str). lines (n ∷ []) ++ s) (traverse_parts-lines parts h.1)
      ∙ sym (lines-append (n ∷ []) (in_order_all parts))

  traverse_parts-lines :
      (parts : NamedParts)
      → All AreNames (in_order_all parts)
      → traverse_parts (to_parts parts) ≡ lines (in_order_all parts)
  traverse_parts-lines done h = refl
  traverse_parts-lines (more m parts) h =
      let both = All-parts (in_order m) (in_order_all parts) h in
      rw (traverse_part-lines m both.0, traverse_parts-lines parts both.1)
        (sym (lines-append (in_order m) (in_order_all parts)))

-- A message is written as two lines for each of its parts, in order, with their names in quotes, when
-- no type has a slash before its subtype and no character set a dash before its variant.
pub mime_traverse-lines :
    (m : NamedPart) → All AreNames (in_order m) → mime_traverse (to_mime m) ≡ lines (in_order m)
mime_traverse-lines m h = traverse_part-lines m h
