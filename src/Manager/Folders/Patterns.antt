-- ===== src/Manager/Folders/Patterns.antt =====
-- The patterns of LIST and LSUB: the expression that `enum_mailbox_list` of
-- chromatic_imap/chromatic_imap_mgr.cpp builds, against the wildcards of RFC 3501.
use chromatic_imap_cplus_plu.Prelude.{
  ℕ, ◌≡◌, refl, ap, ◌∙◌, inl, inr, Bool-cases, Bool, true, false, not, ◌&&◌, ◌||◌, List, [], ◌∷◌,
  ◌++◌, Option, some, ◌==◌, if◌then◌else◌, All, arith,
}
use chromatic_imap_cplus_plu.Text.{Str, codes, is_empty, one_of}
use chromatic_imap_cplus_plu.Manager.Folders.{pattern_regex, pattern_pieces, pattern_piece, slash}

abbrev pub any_suffix : (Str → Bool) → Str → Bool
any_suffix f [] = f []
any_suffix f (c ∷ s) = f (c ∷ s) || any_suffix f s

-- A suffix behind bytes other than a slash.
abbrev pub any_suffix_below : (Str → Bool) → Str → Bool
any_suffix_below f [] = f []
any_suffix_below f (c ∷ s) = f (c ∷ s) || not (c == slash) && any_suffix_below f s

abbrev pub after_byte : ℕ → (Str → Bool) → Str → Bool
after_byte c f [] = false
after_byte c f (d ∷ s) = d == c && f s

-- RFC 3501, 6.3.8: `*` stands for any text, `%` for any without the delimiter of the hierarchy.
abbrev pub list_match : Str → Str → Bool
list_match [] = is_empty
list_match (c ∷ pattern) =
    if c == b'*'
    then any_suffix (list_match pattern)
    else if c == b'%'
    then any_suffix_below (list_match pattern)
    else after_byte c (list_match pattern)

-- What the pieces of an expression stand for.
pub data Piece : Type 0 where
  anything : Piece
  below : Piece
  literal : ℕ → Piece

abbrev pub matches : List Piece → Str → Bool
matches [] = is_empty
matches (anything ∷ ps) = any_suffix (matches ps)
matches (below ∷ ps) = any_suffix_below (matches ps)
matches (literal c ∷ ps) = after_byte c (matches ps)

-- The bytes that have a meaning of their own in an expression.
abbrev pub special : ℕ → Bool
special = one_of (codes ".[]{}()\\*+?|^$")

-- The syntax of expressions, as far as it is used here. A backslash quotes a byte of punctuation.
pub data Spells : Str → List Piece → Type 0 where
  nothing : Spells [] []
  dot_star : {t : Str} {ps : List Piece} → Spells t ps → Spells (codes ".*" ++ t) (anything ∷ ps)
  class_star : {t : Str} {ps : List Piece} → Spells t ps → Spells (codes "[^/]*" ++ t) (below ∷ ps)
  quoted :
      {c : ℕ} {t : Str} {ps : List Piece}
      → one_of (codes "+-.$()") c ≡ true
      → Spells t ps
      → Spells (b'\\' ∷ c ∷ t) (literal c ∷ ps)
  plain :
      {c : ℕ} {t : Str} {ps : List Piece}
      → special c ≡ false
      → Spells t ps
      → Spells (c ∷ t) (literal c ∷ ps)

-- What boost::regex_match is documented to do for such an expression between its anchors.
abbrev pub Documented : (Str → Str → Option Bool) → Type 0
Documented regex_match =
    (t name : Str) (ps : List Piece)
    → Spells t ps
    → regex_match (b'^' ∷ (t ++ b'$' ∷ [])) name ≡ some (matches ps name)

-- The bytes that a pattern may have: `enum_mailbox_list` does not quote those left out.
abbrev pub Ordinary : Str → Type 0
Ordinary = All (λ c. one_of (codes "[]{}?|^\\") c ≡ false)

abbrev piece_of : ℕ → Piece
piece_of c = if c == b'*' then anything else if c == b'%' then below else literal c

abbrev pieces_of : Str → List Piece
pieces_of [] = []
pieces_of (c ∷ pattern) = piece_of c ∷ pieces_of pattern

not-special :
    (c : ℕ)
    → c == b'*' ≡ false
    → one_of (codes "[]{}?|^\\") c ≡ false
    → one_of (codes "+-.$()") c ≡ false
    → special c ≡ false
not-special c e f g = ground arith

pattern_piece-Spells :
    (c : ℕ) (t : Str) (ps : List Piece)
    → one_of (codes "[]{}?|^\\") c ≡ false
    → Spells t ps
    → Spells (pattern_piece c ++ t) (piece_of c ∷ ps)
pattern_piece-Spells c t ps ordinary h = elim (Bool-cases (c == b'*')) [
  | inl e ↦ rw e (dot_star h)
  | inr e ↦ elim (Bool-cases (c == b'%')) [
    | inl k ↦ rw (e, k) (class_star h)
    | inr k ↦ elim (Bool-cases (one_of (codes "+-.$()") c)) [
      | inl q ↦ rw (e, k, q) (quoted q h)
      | inr q ↦ rw (e, k, q) (plain (not-special c e ordinary q) h)
    ]
  ]
]

pattern_pieces-Spells :
    (pattern : Str) → Ordinary pattern → Spells (pattern_pieces pattern) (pieces_of pattern)
pattern_pieces-Spells [] h = nothing
pattern_pieces-Spells (c ∷ pattern) h =
    pattern_piece-Spells c (pattern_pieces pattern) (pieces_of pattern) h.0
      (pattern_pieces-Spells pattern h.1)

matches-pieces_of : (pattern : Str) → matches (pieces_of pattern) ≡ list_match pattern
matches-pieces_of [] = refl
matches-pieces_of (c ∷ pattern) = elim (Bool-cases (c == b'*')) [
  | inl e ↦ rw e (ap any_suffix (matches-pieces_of pattern))
  | inr e ↦ elim (Bool-cases (c == b'%')) [
    | inl k ↦ rw (e, k) (ap any_suffix_below (matches-pieces_of pattern))
    | inr k ↦ rw (e, k) (ap (after_byte c) (matches-pieces_of pattern))
  ]
]

-- For a function that matches expressions as documented, and a reference and a pattern without one of
-- the bytes `[`, `]`, `{`, `}`, `?`, `|`, `^` and backslash, a name matches the expression of
-- `enum_mailbox_list` exactly where it matches the two as one pattern with the wildcards of RFC 3501.
pub pattern_regex-list_match :
    (regex_match : Str → Str → Option Bool) (reference criteria name : Str)
    → Documented regex_match
    → Ordinary (reference ++ criteria)
    → regex_match (pattern_regex reference criteria) name
      ≡ some (list_match (reference ++ criteria) name)
unfolding pattern_regex
pattern_regex-list_match regex_match reference criteria name documented h =
    documented (pattern_pieces (reference ++ criteria)) name (pieces_of (reference ++ criteria))
      (pattern_pieces-Spells (reference ++ criteria) h)
    ∙ ap (λ f. some (f name)) (matches-pieces_of (reference ++ criteria))
