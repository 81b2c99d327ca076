-- ===== src/MessageManip/MessageSet.antt =====
-- `is_message_set` of chromatic_imap/chromatic_imap_message_manip.cpp.
use chromatic_imap_cplus_plu.Prelude.{
  ℕ, ◌+◌, ◌≤◌, ◌≡◌, refl, ap, ◌∙◌, Bool, true, not, ◌&&◌, ◌||◌, [], ◌∷◌, ◌++◌, arith, leb, ◌==◌,
  take-length, drop-length_one, sym, append-nil, none,
}
use chromatic_imap_cplus_plu.Prelude.Int.{ℤ, pos, eqb_ℤ}
use chromatic_imap_cplus_plu.Text.{Str, codes, find, c_str, is_digit}
use chromatic_imap_cplus_plu.Text.Decimal.{show, atoi, AllDigits, show-AllDigits}
use chromatic_imap_cplus_plu.MessageManip.{only_set_bytes, is_range, is_message_set}
use chromatic_imap_cplus_plu.MessageManip.Grammar.{
  Atom, one, closed, onwards, print_atom, Fits, find-colon, find-no_colon, not_star, read_number,
}

abbrev pub set_byte : ℕ → Bool
set_byte c = is_digit c || c == b':' || c == b'*'

abbrev pub all_set_bytes : Str → Bool
all_set_bytes [] = true
all_set_bytes (c ∷ s) = set_byte c && all_set_bytes s

only_set_bytes-all :
    (place mark : ℕ) (s : Str) → mark ≤ place → only_set_bytes place mark s ≡ all_set_bytes s
unfolding only_set_bytes
only_set_bytes-all place mark [] h = refl
only_set_bytes-all place mark (c ∷ s) h =
    ground (arith, only_set_bytes-all (place + 1) mark s, only_set_bytes-all (place + 1) place s)

-- The scan accepts exactly the texts of digits, colons and asterisks, in any order.
pub only_set_bytes_lem : (s : Str) → only_set_bytes 0 0 s ≡ all_set_bytes s
only_set_bytes_lem s = only_set_bytes-all 0 0 s (omega arith)

all_set_bytes-digits : (s t : Str) → AllDigits s → all_set_bytes (s ++ t) ≡ all_set_bytes t
all_set_bytes-digits [] t h = refl
all_set_bytes-digits (c ∷ s) t h = ground (arith, all_set_bytes-digits s t h.1)

print_atom-set_bytes : (atom : Atom) → all_set_bytes (print_atom atom) ≡ true
print_atom-set_bytes (one n) =
    ap all_set_bytes (sym (append-nil (show n)))
    ∙ all_set_bytes-digits (show n) [] (show-AllDigits n)
print_atom-set_bytes (closed a b) =
    all_set_bytes-digits (show a) (b':' ∷ show b) (show-AllDigits a)
    ∙ ap all_set_bytes (sym (append-nil (show b)))
    ∙ all_set_bytes-digits (show b) [] (show-AllDigits b)
print_atom-set_bytes (onwards a) =
    all_set_bytes-digits (show a) (b':' ∷ codes "*") (show-AllDigits a)

-- What the test asks of an atom: no zero, and ends in order; an open range must start no later
-- than a known limit.
abbrev pub accepts : ℕ → Atom → Bool
accepts limit (one n) = not (n == 0)
accepts limit (closed a b) = not (a == 0) && not (b == 0) && leb a b
accepts limit (onwards a) = not (a == 0) && not (limit == 0) && leb a limit

is_message_set_single :
    (atom : Str) (limit : ℤ)
    → find (codes ":") atom ≡ none
    → is_message_set atom limit ≡ (all_set_bytes atom && not (eqb_ℤ (atoi (c_str atom)) (pos 0)))
unfolding is_message_set
is_message_set_single atom limit e = rw (only_set_bytes_lem atom) (rw (e, is_message_set))

is_message_set_range :
    (left right : Str) (limit : ℤ)
    → AllDigits left
    → is_message_set (left ++ b':' ∷ right) limit
      ≡ (all_set_bytes (left ++ b':' ∷ right) && is_range left right limit)
unfolding is_message_set
is_message_set_range left right limit h = rw (
  only_set_bytes_lem (left ++ b':' ∷ right),
  find-colon left right h,
  take-length left (b':' ∷ right),
  drop-length_one left right b':',
)

-- On a printed atom whose numbers fit an int the test is right: it accepts a number or a range just
-- when no number in it is 0 and the ends are in order, and an open range just when it starts at
-- a number from 1 to the limit.
pub is_message_set-print :
    (atom : Atom) (limit : ℕ)
    → Fits atom
    → is_message_set (print_atom atom) (pos limit) ≡ accepts limit atom
is_message_set-print (one n) limit h =
    is_message_set_single (show n) (pos limit) (find-no_colon (show n) (show-AllDigits n))
    ∙ rw (print_atom-set_bytes (one n), read_number n h) (ground arith)
is_message_set-print (closed a b) limit h =
    is_message_set_range (show a) (show b) (pos limit) (show-AllDigits a)
    ∙ rw (print_atom-set_bytes (closed a b)) (
        unfold is_range in
        rw (not_star (show b) (show-AllDigits b), read_number a h.0, read_number b h.1)
          (ground arith))
is_message_set-print (onwards a) limit h =
    is_message_set_range (show a) (codes "*") (pos limit) (show-AllDigits a)
    ∙ rw (print_atom-set_bytes (onwards a)) (unfold is_range in rw (read_number a h) (ground arith))
