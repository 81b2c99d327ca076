-- ===== src/MessageManip.antt =====
-- chromatic_imap/chromatic_imap_message_manip.cpp: message sequences such as "1:3,7,9:*".
-- An `int` is a ℤ. The sums `++dwRight - dwLeft` keep their low 32 bits, as on a machine whose ints wrap.
pub mod Sorting
pub mod Intersection
pub mod Selection
pub mod Sequence
pub mod Grammar
pub mod MessageSet
use chromatic_imap_cplus_plu.Prelude.{
  ℕ, zero, suc, ◌+◌, ◌-◌, Bool, true, false, not, ◌&&◌, ◌||◌, List, [], ◌∷◌, ◌++◌, Option, none,
  some, ltb, ◌==◌, if◌then◌else◌, length, take, max, drop, keep, replicate,
}
use chromatic_imap_cplus_plu.Prelude.Int.{ℤ, pos, negsuc, pos_part, ◌+ℤ◌, ◌-ℤ◌, leb_ℤ, ltb_ℤ, eqb_ℤ}
use chromatic_imap_cplus_plu.Text.{
  Str, codes, same, find, find_first_of, find_last_of, substr, substr_len, c_str, is_alpha,
  is_digit,
}
use chromatic_imap_cplus_plu.Text.Decimal.{atoi, long_to_int}
use chromatic_imap_cplus_plu.Tokenizer.{safe_tokenize}

-- generate_n( back_inserter( v ) , n , PopulateRange( first ) )
unfoldable pub populate_range : ℕ → ℤ → List ℤ
populate_range zero first = []
populate_range (suc n) first = first ∷ populate_range n (first +ℤ pos 1)

-- A negative count generates nothing.
unfoldable pub generate_n : ℤ → ℤ → List ℤ
generate_n count first = populate_range (pos_part count) first

-- The branch for a range "left:right".
unfoldable pub process_range : Str → Str → List ℤ → ℤ → List ℤ
unfolding long_to_int
process_range left_sequence right_sequence subatoms limit =
    let left = atoi (c_str left_sequence) in
    let right = atoi (c_str right_sequence) in
    let bounded = if ltb_ℤ limit right then limit else right in
    if not (same right_sequence (codes "*"))
    then if leb_ℤ left right
      then subatoms ++ generate_n (long_to_int (bounded +ℤ pos 1 -ℤ left)) left
      else subatoms
    else if eqb_ℤ limit (pos 0)
    then subatoms
    else if leb_ℤ left limit
    then subatoms ++ generate_n (long_to_int (limit +ℤ pos 1 -ℤ left)) left
    else subatoms

unfoldable pub process_atoms : Str → List ℤ → ℤ → List ℤ
unfolding process_range
process_atoms atom subatoms limit = elim (find (codes ":") atom) [
  | none ↦ subatoms ++ atoi (c_str atom) ∷ []
  | some idx ↦ process_range (substr_len 0 idx atom) (substr (idx + 1) atom) subatoms limit
]

unfoldable pub process_all : List Str → List ℤ → ℤ → List ℤ
unfolding process_atoms
process_all [] subatoms limit = subatoms
process_all (atom ∷ atoms) subatoms limit =
    process_all atoms (process_atoms atom subatoms limit) limit

unfoldable pub expand_message_sequence : Str → ℤ → List ℤ
unfolding process_all
expand_message_sequence sequence limit = process_all (safe_tokenize sequence (codes ",")) [] limit

unfoldable pub get_message_count : Str → ℤ → ℕ
unfolding process_all
get_message_count sequence limit =
    length (process_all (safe_tokenize sequence (codes ",")) [] limit)

-- *max_element and *min_element; of no atoms they dereference the end, which is `none` here.
unfoldable pub max_atom : List ℤ → Option ℤ
max_atom [] = none
max_atom (x ∷ xs) = elim (max_atom xs) [
  | none ↦ some x
  | some m ↦ some (if ltb_ℤ x m then m else x)
]

unfoldable pub min_atom : List ℤ → Option ℤ
min_atom [] = none
min_atom (x ∷ xs) = elim (min_atom xs) [
  | none ↦ some x
  | some m ↦ some (if ltb_ℤ m x then m else x)
]

-- std::sort on ints
insert : ℤ → List ℤ → List ℤ
insert x [] = x ∷ []
insert x (y ∷ ys) = if leb_ℤ x y then x ∷ y ∷ ys else y ∷ insert x ys

unfoldable pub sort : List ℤ → List ℤ
unfolding insert
sort [] = []
sort (x ∷ xs) = insert x (sort xs)

-- std::unique moves the first int of each run to the front and returns where they end; nothing is
-- erased, so the rest of the vector keeps the ints that stood there.
unfoldable pub unique_from : ℤ → List ℤ → List ℤ
unique_from x [] = []
unique_from x (y ∷ ys) = if eqb_ℤ x y then unique_from x ys else y ∷ unique_from y ys

unfoldable pub unique_front : List ℤ → List ℤ
unfolding unique_from
unique_front [] = []
unique_front (x ∷ xs) = x ∷ unique_from x xs

unfoldable pub unique : List ℤ → List ℤ
unfolding unique_front
unique xs = unique_front xs ++ drop (length (unique_front xs)) xs

-- std::set_intersection
unfoldable pub set_intersection : List ℤ → List ℤ → List ℤ
set_intersection [] ys = []
set_intersection (x ∷ xs) [] = []
set_intersection (x ∷ xs) (y ∷ ys) = elim (ltb_ℤ x y) [
  | true ↦ set_intersection xs (y ∷ ys)
  | false ↦ elim (ltb_ℤ y x) [
    | true ↦ set_intersection (x ∷ xs) ys
    | false ↦ x ∷ set_intersection xs ys
  ]
]

-- The target vector starts with zeros, and all zeros are removed at the end.
unfoldable pub atoms_intersection : List ℤ → List ℤ → List ℤ
unfolding sort unique set_intersection
atoms_intersection first_atoms second_atoms =
    let common = set_intersection (unique (sort first_atoms)) (unique (sort second_atoms)) in
    let room = max (length first_atoms) (length second_atoms) in
    keep (λ z. not (eqb_ℤ z (pos 0))) (common ++ replicate (room - length common) (pos 0))

-- str.substr( jdx , idx - jdx ); the difference is unsigned, and below zero past every length.
abbrev pub between : Str → ℕ → ℕ → Str
between s jdx idx = if ltb idx jdx then substr jdx s else substr_len jdx (idx - jdx) s

-- The text between the first "(" and the last ")".
unfoldable pub extract_parenthetical_atoms : Str → Str
extract_parenthetical_atoms payload = elim (find_first_of (codes "(") payload) [
  | none ↦ payload
  | some open_at ↦ elim (find_last_of (codes ")") payload) [
    | none ↦ payload
    | some close_at ↦ between payload (open_at + 1) close_at
  ]
]

-- The scan of `is_message_set`: `mark` is the place of the last colon.
unfoldable pub only_set_bytes : ℕ → ℕ → Str → Bool
only_set_bytes place mark [] = true
only_set_bytes place mark (c ∷ s) =
    if is_alpha c
    then false
    else if is_digit c
    then only_set_bytes (place + 1) mark s
    else if not (c == b':' || c == b'*')
    then false
    else if c == b':'
    then only_set_bytes (place + 1) place s
    else if ltb place mark
    then false
    else only_set_bytes (place + 1) mark s

unfoldable pub is_range : Str → Str → ℤ → Bool
is_range left_sequence right_sequence limit =
    let left = atoi (c_str left_sequence) in
    let right = atoi (c_str right_sequence) in
    if not (same right_sequence (codes "*"))
    then not (eqb_ℤ left (pos 0)) && not (eqb_ℤ right (pos 0)) && leb_ℤ left right
    else not (eqb_ℤ left (pos 0)) && not (eqb_ℤ limit (pos 0)) && leb_ℤ left limit

unfoldable pub is_message_set : Str → ℤ → Bool
unfolding only_set_bytes is_range
is_message_set atom limit = only_set_bytes 0 0 atom && (elim (find (codes ":") atom) [
  | none ↦ not (eqb_ℤ (atoi (c_str atom)) (pos 0))
  | some idx ↦ is_range (substr_len 0 idx atom) (substr (idx + 1) atom) limit
])
