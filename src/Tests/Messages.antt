-- ===== src/Tests/Messages.antt =====
-- Concrete runs of the theorems on message sets, Base64, tokens and flags.
use chromatic_imap_cplus_plu.MessageManip.Sequence.{In-expand_message_sequence, Names}
use chromatic_imap_cplus_plu.MessageManip.Selection.{atoms_intersection-selects}
use chromatic_imap_cplus_plu.Base64.RoundTrip.{length-base64_encode, base64_decode-encode}
use chromatic_imap_cplus_plu.MessageManip.MessageSet.{is_message_set-print}
use chromatic_imap_cplus_plu.Flags.Laws.{apply_flags_lem, str_to_mbx_flags-mbx_flags_to_str}
use chromatic_imap_cplus_plu.MessageManip.Grammar.{
  onwards, one, closed, expand_message_sequence-print, Ascending, meaning_set,
}
use chromatic_imap_cplus_plu.Text.{codes}
use chromatic_imap_cplus_plu.Text.Decimal.{digits_value, atoi, long_to_int, show}
use chromatic_imap_cplus_plu.MessageManip.{
  populate_range, generate_n, process_range, process_atoms, process_all, is_message_set,
  atoms_intersection, expand_message_sequence,
}
use chromatic_imap_cplus_plu.MessageManip.Sorting.{Rising, NoRepeat}
use chromatic_imap_cplus_plu.Flags.{
  draft, seen, same_flag, remove, mbx_flags_to_str, apply_flags, str_to_mbx_flags,
}
use chromatic_imap_cplus_plu.Tokenizer.Laws.{safe_tokenize_content, join_all, IsToken}
use chromatic_imap_cplus_plu.Prelude.Int.{◌-ℤ◌, ◌+ℤ◌, pos, ℤ}
use chromatic_imap_cplus_plu.Base64.{base64_encode, base64_decode}
use chromatic_imap_cplus_plu.Tokenizer.{tokenize_loop, safe_tokenize}
use chromatic_imap_cplus_plu.Prelude.{
  ◌↔◌, ◌≢◌, All, In, Any, ◌≡◌, refl, true, false, [], ◌∷◌, arith, length,
}

expand_message_sequence-print_example :
    (expand_message_sequence (codes "2,4:6,8:*") (pos 9)
      ≡ pos 2 ∷ pos 4 ∷ pos 5 ∷ pos 6 ∷ pos 8 ∷ pos 9 ∷ [])
    × (All (Ascending 9) (one 2 ∷ closed 4 6 ∷ onwards 8 ∷ [])
        → expand_message_sequence (codes "2,4:6,8:*") (pos 9)
          ≡ meaning_set 9 (one 2 ∷ closed 4 6 ∷ onwards 8 ∷ []))
unfolding show
expand_message_sequence-print_example =
    expand_message_sequence-print (one 2 ∷ closed 4 6 ∷ onwards 8 ∷ []) 9 (omega arith)
      (omega arith, ((omega arith, omega arith), (omega arith, tt)))
      (omega arith, ((omega arith, omega arith), (omega arith, tt)))

In-expand_message_sequence_example :
    In (pos 5) (expand_message_sequence (codes "2,4:6") (pos 9))
    ↔ Any (λ atom. Names (pos 9) atom (pos 5)) (safe_tokenize (codes "2,4:6") (codes ","))
In-expand_message_sequence_example =
    In-expand_message_sequence (codes "2,4:6") 9 (pos 5) (omega arith)

-- A range of more numbers than an int counts adds none.
long_range : expand_message_sequence (codes "-2147483648:5") (pos 9) ≡ []
unfolding expand_message_sequence process_all process_atoms process_range generate_n populate_range
    ◌+ℤ◌ ◌-ℤ◌ long_to_int safe_tokenize tokenize_loop atoi digits_value
long_range = refl

existing-NoRepeat : NoRepeat (pos 1 ∷ pos 2 ∷ pos 3 ∷ [])
existing-NoRepeat = ground arith

atoms_intersection-selects_example :
    ((z : ℤ)
      → In z (atoms_intersection (pos 2 ∷ pos 2 ∷ pos 7 ∷ []) (pos 1 ∷ pos 2 ∷ pos 3 ∷ []))
        ↔ (In z (pos 2 ∷ pos 2 ∷ pos 7 ∷ []) × In z (pos 1 ∷ pos 2 ∷ pos 3 ∷ []) × (z ≢ pos 0)))
    × Rising (atoms_intersection (pos 2 ∷ pos 2 ∷ pos 7 ∷ []) (pos 1 ∷ pos 2 ∷ pos 3 ∷ []))
atoms_intersection-selects_example =
    atoms_intersection-selects (pos 2 ∷ pos 2 ∷ pos 7 ∷ []) (pos 1 ∷ pos 2 ∷ pos 3 ∷ [])
      existing-NoRepeat

base64_decode-encode_example : base64_decode (base64_encode (codes "light")) ≡ codes "light"
base64_decode-encode_example = base64_decode-encode (codes "light") (ground arith)

length-base64_encode_example : length (base64_encode (codes "light")) ≡ 8
length-base64_encode_example = length-base64_encode (codes "light")

safe_tokenize_content_example :
    All (IsToken (codes ",;")) (safe_tokenize (codes ",a,;bc") (codes ",;"))
    × (join_all (safe_tokenize (codes ",a,;bc") (codes ",;")) ≡ codes "abc")
safe_tokenize_content_example = safe_tokenize_content (codes ",a,;bc") (codes ",;")

is_message_set-print_example : is_message_set (codes "3:5") (pos 9) ≡ true
unfolding show
is_message_set-print_example = is_message_set-print (closed 3 5) 9 (omega arith, omega arith)

str_to_mbx_flags-mbx_flags_to_str_example :
    str_to_mbx_flags (mbx_flags_to_str (λ f. same_flag f seen)) (λ f. false) seen ≡ true
str_to_mbx_flags-mbx_flags_to_str_example =
    str_to_mbx_flags-mbx_flags_to_str (λ f. same_flag f seen) seen

apply_flags_lem_example : apply_flags remove (λ f. same_flag f seen) (λ f. true) draft ≡ true
apply_flags_lem_example = apply_flags_lem remove (λ f. same_flag f seen) (λ f. true) draft
