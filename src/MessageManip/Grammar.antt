-- ===== src/MessageManip/Grammar.antt =====
-- The sequence sets of the protocol, printed and expanded: "1:3,7,9:*".
use chromatic_imap_cplus_plu.Prelude.{
  ℕ, zero, suc, ◌+◌, ◌-◌, ◌<◌, ◌≤◌, min, max, ◌≡◌, ◌≢◌, refl, sym, ap, ◌∙◌, true, false, List, [],
  ◌∷◌, ◌++◌, map, none, some, arith, leb, ◌==◌, if◌then◌else◌, length, All, All-append, take-length,
  drop-length_one, append_assoc, append-nil,
}
use chromatic_imap_cplus_plu.Prelude.Int.{
  ℤ, pos, pos_part, ◌+ℤ◌, ◌-ℤ◌, ltb_ℤ, +ℤ_parts, -ℤ_parts, eq_of_parts, one_sided,
}
use chromatic_imap_cplus_plu.Text.{Str, codes, same, one_of, find, c_str, is_digit}
use chromatic_imap_cplus_plu.Text.Decimal.{
  show, atoi, AllDigits, show-AllDigits, show-ne-nil, atoi-show,
}
use chromatic_imap_cplus_plu.Tokenizer.Laws.{
  IsToken, NoNul, join, Free, c_str-NoNul, safe_tokenize-join,
}
use chromatic_imap_cplus_plu.MessageManip.Sequence.{long_to_int-fits}
use chromatic_imap_cplus_plu.Text.Decimal.{long_to_int}
use chromatic_imap_cplus_plu.MessageManip.{
  populate_range, generate_n, process_range, process_atoms, process_all, expand_message_sequence,
}

-- seq-number, seq-range, and a range that ends in "*".
pub data Atom : Type 0 where
  one : ℕ → Atom
  closed : ℕ → ℕ → Atom
  onwards : ℕ → Atom

abbrev pub print_atom : Atom → Str
print_atom (one n) = show n
print_atom (closed a b) = show a ++ b':' ∷ show b
print_atom (onwards a) = show a ++ b':' ∷ b'*' ∷ []

abbrev pub print_set : List Atom → Str
print_set atoms = join b',' (map print_atom atoms)

abbrev pub int_limit : ℕ
int_limit = 2_147_483_648

-- The numbers fit an int.
abbrev pub Fits : Atom → Type 0
Fits (one n) = n < int_limit
Fits (closed a b) = (a < int_limit) × (b < int_limit)
Fits (onwards a) = a < int_limit

-- The numbers are nz-numbers.
abbrev pub NonZero : Atom → Type 0
NonZero (one n) = 0 < n
NonZero (closed a b) = (0 < a) × (0 < b)
NonZero (onwards a) = 0 < a

-- The numbers from `a` on, `n` of them.
abbrev pub count_up : ℕ → ℕ → List ℤ
count_up zero a = []
count_up (suc n) a = pos a ∷ count_up n (a + 1)

-- The numbers from `a` to `b`.
abbrev pub numbers : ℕ → ℕ → List ℤ
numbers a b = count_up (b + 1 - a) a

-- What the numbers of an atom come to below `limit`.
abbrev pub denote : ℕ → Atom → List ℤ
denote limit (one n) = pos n ∷ []
denote limit (closed a b) = if leb a b then numbers a (min b limit) else []
denote limit (onwards a) = if limit == 0 then [] else numbers a limit

abbrev pub denote_set : ℕ → List Atom → List ℤ
denote_set limit [] = []
denote_set limit (atom ∷ atoms) = denote limit atom ++ denote_set limit atoms

-- What RFC 3501 has an atom name in a mailbox whose last message is number `limit`: a range goes from the
-- smaller of its ends to the larger, whichever is first, and "*" is the last message.
abbrev pub meaning : ℕ → Atom → List ℤ
meaning limit (one n) = pos n ∷ []
meaning limit (closed a b) = numbers (min a b) (min (max a b) limit)
meaning limit (onwards a) = numbers (min a limit) limit

abbrev pub meaning_set : ℕ → List Atom → List ℤ
meaning_set limit [] = []
meaning_set limit (atom ∷ atoms) = meaning limit atom ++ meaning_set limit atoms

-- The ends of a range are in order.
abbrev pub Ascending : ℕ → Atom → Type 0
Ascending limit (one n) = Unit
Ascending limit (closed a b) = a ≤ b
Ascending limit (onwards a) = a ≤ limit

denote-meaning :
    (limit : ℕ) (atom : Atom)
    → NonZero atom
    → Ascending limit atom
    → denote limit atom ≡ meaning limit atom
denote-meaning limit (one n) p h = refl
denote-meaning limit (closed a b) p h =
    let left : min a b ≡ a = omega arith in
    let right : max a b ≡ b = omega arith in
    let ordered : leb a b ≡ true = ground arith in rw (ordered, left, right) refl
denote-meaning limit (onwards a) p h =
    let left : min a limit ≡ a = omega arith in
    let known : (limit == 0) ≡ false = ground arith in rw (known, left) refl

denote_set-meaning_set :
    (limit : ℕ) (atoms : List Atom)
    → All NonZero atoms
    → All (Ascending limit) atoms
    → denote_set limit atoms ≡ meaning_set limit atoms
denote_set-meaning_set limit [] p h = refl
denote_set-meaning_set limit (atom ∷ atoms) p h =
    rw (denote-meaning limit atom p.0 h.0)
      (ap (λ xs. meaning limit atom ++ xs) (denote_set-meaning_set limit atoms p.1 h.1))

-- Facts about the bytes of printed numbers.
digit_free : (c d : ℕ) → is_digit c ≡ true → is_digit d ≡ false → (c == d) ≡ false
digit_free c d h k = ground arith

digits-NoNul : (s : Str) → AllDigits s → NoNul s
digits-NoNul [] h = tt
digits-NoNul (c ∷ s) h = (ground arith, digits-NoNul s h.1)

digits-Free : (d : ℕ) (s : Str) → is_digit d ≡ false → AllDigits s → Free (d ∷ []) s
digits-Free d [] k h = tt
digits-Free d (c ∷ s) k h = (ground arith, digits-Free d s k h.1)

pub find-colon : (s t : Str) → AllDigits s → find (codes ":") (s ++ b':' ∷ t) ≡ some (length s)
find-colon [] t h = refl
find-colon (c ∷ s) t h = ground (arith, find-colon s t h.1)

pub find-no_colon : (s : Str) → AllDigits s → find (codes ":") s ≡ none
find-no_colon [] h = refl
find-no_colon (c ∷ s) h = ground (arith, find-no_colon s h.1)

pub not_star : (s : Str) → AllDigits s → same s (codes "*") ≡ false
not_star [] h = refl
not_star (c ∷ s) h = ground arith

pub read_number : (n : ℕ) → n < int_limit → atoi (c_str (show n)) ≡ pos n
read_number n h =
    ap atoi (c_str-NoNul (show n) (digits-NoNul (show n) (show-AllDigits n))) ∙ atoi-show n h

pos-+ℤ : (a b : ℕ) → pos a +ℤ pos b ≡ pos (a + b)
pos-+ℤ a b = eq_of_parts _ _ (omega (arith, +ℤ_parts (pos a) (pos b), one_sided (pos a +ℤ pos b)))

populate_range-count_up : (n a : ℕ) → populate_range n (pos a) ≡ count_up n a
unfolding populate_range
populate_range-count_up zero a = refl
populate_range-count_up (suc n) a =
    ap (◌∷◌ (pos a)) (ap (populate_range n) (pos-+ℤ a 1) ∙ populate_range-count_up n (a + 1))

generate_n-numbers : (a b : ℕ) → generate_n (pos b +ℤ pos 1 -ℤ pos a) (pos a) ≡ numbers a b
unfolding generate_n
generate_n-numbers a b =
    let count = pos b +ℤ pos 1 -ℤ pos a in
    let size : pos_part count ≡ b + 1 - a = omega (
      arith,
      one_sided count,
      +ℤ_parts (pos b) (pos 1),
      one_sided (pos b +ℤ pos 1),
      -ℤ_parts (pos b +ℤ pos 1) (pos a),
    ) in
    populate_range-count_up (pos_part count) a ∙ ap (λ n. count_up n a) size

generate_int-numbers :
    (a b : ℕ)
    → 0 < a
    → a < int_limit
    → b < int_limit
    → generate_n (long_to_int (pos b +ℤ pos 1 -ℤ pos a)) (pos a) ≡ numbers a b
generate_int-numbers a b p h k =
    let count = pos b +ℤ pos 1 -ℤ pos a in
    let sided = one_sided count in
    let one_more = one_sided (pos b +ℤ pos 1) in
    let sum = +ℤ_parts (pos b) (pos 1) in
    let difference = -ℤ_parts (pos b +ℤ pos 1) (pos a) in
    let fits = long_to_int-fits count (
      omega (arith, sided, one_more, sum, difference),
      omega (arith, sided, one_more, sum, difference),
    ) in
    rw fits (generate_n-numbers a b)

pos-min :
    (b limit : ℕ) → (if ltb_ℤ (pos limit) (pos b) then pos limit else pos b) ≡ pos (min b limit)
pos-min b limit = ground arith

numbers-empty : (a b : ℕ) → b < a → numbers a b ≡ []
numbers-empty a b h =
    let none_left : b + 1 - a ≡ 0 = omega arith in ap (λ n. count_up n a) none_left

process_range-closed :
    (a b limit : ℕ) (acc : List ℤ)
    → limit < int_limit
    → Fits (closed a b)
    → 0 < a
    → process_range (show a) (show b) acc (pos limit) ≡ acc ++ denote limit (closed a b)
unfolding process_range
process_range-closed a b limit acc k h p =
    rw
      (
        not_star (show b) (show-AllDigits b),
        read_number a h.0,
        read_number b h.1,
        pos-min b limit,
        generate_int-numbers a (min b limit) p h.0 (omega arith),
      )
      (ground (arith, append-nil acc))

process_range-onwards :
    (a limit : ℕ) (acc : List ℤ)
    → limit < int_limit
    → a < int_limit
    → 0 < a
    → process_range (show a) (codes "*") acc (pos limit) ≡ acc ++ denote limit (onwards a)
unfolding process_range
process_range-onwards a limit acc k h p =
    rw (read_number a h, generate_int-numbers a limit p h k)
      (ground (arith, append-nil acc, numbers-empty a limit))

process_atoms_single :
    (atom : Str) (acc : List ℤ) (limit : ℤ)
    → find (codes ":") atom ≡ none
    → process_atoms atom acc limit ≡ acc ++ atoi (c_str atom) ∷ []
unfolding process_atoms
process_atoms_single atom acc limit e = rw (e, process_atoms)

process_atoms_range :
    (left right : Str) (acc : List ℤ) (limit : ℤ)
    → AllDigits left
    → process_atoms (left ++ b':' ∷ right) acc limit ≡ process_range left right acc limit
unfolding process_atoms
process_atoms_range left right acc limit h =
    rw (find-colon left right h, process_atoms)
      (rw (take-length left (b':' ∷ right), drop-length_one left right b':'))

process_atoms-print :
    (atom : Atom) (limit : ℕ) (acc : List ℤ)
    → limit < int_limit
    → Fits atom
    → NonZero atom
    → process_atoms (print_atom atom) acc (pos limit) ≡ acc ++ denote limit atom
process_atoms-print (one n) limit acc k h p =
    process_atoms_single (show n) acc (pos limit) (find-no_colon (show n) (show-AllDigits n))
    ∙ ap (λ x. acc ++ x ∷ []) (read_number n h)
process_atoms-print (closed a b) limit acc k h p =
    process_atoms_range (show a) (show b) acc (pos limit) (show-AllDigits a)
    ∙ process_range-closed a b limit acc k h p.0
process_atoms-print (onwards a) limit acc k h p =
    process_atoms_range (show a) (codes "*") acc (pos limit) (show-AllDigits a)
    ∙ process_range-onwards a limit acc k h p

process_all-print :
    (atoms : List Atom) (limit : ℕ) (acc : List ℤ)
    → limit < int_limit
    → All Fits atoms
    → All NonZero atoms
    → process_all (map print_atom atoms) acc (pos limit) ≡ acc ++ denote_set limit atoms
unfolding process_all
process_all-print [] limit acc k h p = sym (append-nil acc)
process_all-print (atom ∷ atoms) limit acc k h p =
    process_all-print atoms limit (process_atoms (print_atom atom) acc (pos limit)) k h.1 p.1
    ∙ ap (λ xs. xs ++ denote_set limit atoms) (process_atoms-print atom limit acc k h.0 p.0)
    ∙ append_assoc acc (denote limit atom) (denote_set limit atoms)

middle-ne-nil : (s t : Str) (c : ℕ) → s ++ c ∷ t ≢ []
middle-ne-nil [] t c = λ e. cc
middle-ne-nil (x ∷ s) t c = λ e. cc

-- A range is a token, as long as what stands behind its colon has no comma and no NUL in it.
range-IsToken :
    (a : ℕ) (right : Str)
    → Free (codes ",") right
    → NoNul right
    → IsToken (codes ",") (show a ++ b':' ∷ right) × NoNul (show a ++ b':' ∷ right)
range-IsToken a right f n = (
  (
    middle-ne-nil (show a) right b':',
    All-append (λ c. one_of (codes ",") c ≡ false) (show a) (b':' ∷ right)
        (digits-Free b',' (show a) refl (show-AllDigits a)) (refl, f),
  ),
  All-append (λ c. c ≢ 0) (show a) (b':' ∷ right) (digits-NoNul (show a) (show-AllDigits a))
      (omega arith, n),
)

print_atom-IsToken : (atom : Atom) → IsToken (codes ",") (print_atom atom) × NoNul (print_atom atom)
print_atom-IsToken (one n) = (
  (show-ne-nil n, digits-Free b',' (show n) refl (show-AllDigits n)),
  digits-NoNul (show n) (show-AllDigits n),
)
print_atom-IsToken (closed a b) =
    range-IsToken a (show b) (digits-Free b',' (show b) refl (show-AllDigits b))
      (digits-NoNul (show b) (show-AllDigits b))
print_atom-IsToken (onwards a) = range-IsToken a (codes "*") (refl, tt) (omega arith, tt)

print_set-tokens :
    (atoms : List Atom)
    → All (IsToken (codes ",")) (map print_atom atoms) × All NoNul (map print_atom atoms)
print_set-tokens [] = (tt, tt)
print_set-tokens (atom ∷ atoms) =
    let (t, n) = print_atom-IsToken atom in
    let (ts, ns) = print_set-tokens atoms in ((t, ts), (n, ns))

-- A sequence set of numbers and ranges, of nz-numbers that fit an int and without a "*" that stands alone,
-- printed and expanded below a limit that is an int, gives its numbers in order: a single number as it
-- is, a range cut off at the limit, and an open range up to the limit, or nothing when the limit is not
-- known (0) or a range descends. So it gives the numbers of RFC 3501, where every range ascends and
-- an open one starts no later than the last message.
pub expand_message_sequence-print :
    (atoms : List Atom) (limit : ℕ)
    → limit < int_limit
    → All Fits atoms
    → All NonZero atoms
    → (expand_message_sequence (print_set atoms) (pos limit) ≡ denote_set limit atoms)
      × (All (Ascending limit) atoms
          → expand_message_sequence (print_set atoms) (pos limit) ≡ meaning_set limit atoms)
unfolding expand_message_sequence
expand_message_sequence-print atoms limit k h p =
    let (t, n) = print_set-tokens atoms in
    let expanded : expand_message_sequence (print_set atoms) (pos limit) ≡ denote_set limit atoms =
      ap (λ ts. process_all ts [] (pos limit))
        (safe_tokenize-join (codes ",") b',' refl (map print_atom atoms) (omega arith) t n)
      ∙ process_all-print atoms limit [] k h p in
    (expanded, λ ascending. expanded ∙ denote_set-meaning_set limit atoms p ascending)
