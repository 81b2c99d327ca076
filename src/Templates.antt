-- ===== src/Templates.antt =====
-- The templates of include/generic.h but the tokenizer: a look-up in a map, and maps, pairs, tuples and
-- durations on a stream. A tuple is the list of its elements, a map the list of its entries in the order of
-- its keys, and an element that is written is the text it has on the stream.
use chromatic_imap_cplus_plu.Prelude.{
  ℕ, ◌+◌, ◌==◌, ◌≡◌, refl, ◌∙◌, ap, Bool, true, false, List, [], ◌∷◌, ◌++◌, All, length, append-nil,
  append_assoc, if◌then◌else◌, arith,
}
use chromatic_imap_cplus_plu.Text.{Str, codes}
use chromatic_imap_cplus_plu.Text.Decimal.{show}
use chromatic_imap_cplus_plu.Tokenizer.{safe_tokenize}
use chromatic_imap_cplus_plu.Tokenizer.Laws.{IsToken, NoNul, join, safe_tokenize-join}

-- `blank` is what the variable `value` holds before it is set.
unfoldable pub get_map_element_at : {A : Type 0} → (A → A → Bool) → A → A → List (A × A) → A
get_map_element_at eq blank key [] = blank
get_map_element_at eq blank key (entry ∷ map) =
    let later = get_map_element_at eq blank key map in if eq entry.0 key then entry.1 else later

-- The loop over the entries.
unfoldable pub stream_entries : Str → Str → List (Str × Str) → Str
stream_entries sep terminator [] = []
stream_entries sep terminator (entry ∷ map) =
    entry.0 ++ sep ++ entry.1 ++ terminator ++ stream_entries sep terminator map

-- std::ends is a NUL.
unfoldable pub stream_map_elements : Str → Str → List (Str × Str) → Str
unfolding stream_entries
stream_map_elements sep terminator map = stream_entries sep terminator map ++ 0 ∷ []

-- operator<< of a pair
unfoldable pub stream_pair : Str × Str → Str
stream_pair p = codes "[" ++ p.0 ++ codes "," ++ p.1 ++ codes "]"

-- iterate_over_tuple: `f` changes what it keeps.
unfoldable pub iterate_over_tuple : {A S : Type 0} → (A → S → S) → List A → S → S
iterate_over_tuple f [] st = st
iterate_over_tuple f (x ∷ t) st = iterate_over_tuple f t (f x st)

-- print_tuple<idx, max>, with the elements from number `idx` on.
unfoldable pub print_tuple : ℕ → ℕ → List Str → Str
print_tuple idx max [] = []
print_tuple idx max (x ∷ t) =
    x ++ (if idx + 1 == max then [] else codes ",") ++ print_tuple (idx + 1) max t

-- operator<< of a tuple
unfoldable pub stream_tuple : List Str → Str
unfolding print_tuple
stream_tuple t = codes "[" ++ print_tuple 0 (length t) t ++ codes "]"

-- operator<< of a duration of `count` ticks, not negative, of `num` / `den` seconds
unfoldable pub stream_duration : ℕ → ℕ → ℕ → Str
stream_duration count num den =
    codes "[" ++ show count ++ codes " of " ++ show num ++ codes "/" ++ show den ++ codes "]"

print_tuple-join :
    (idx max : ℕ) (t : List Str) → idx + length t ≡ max → print_tuple idx max t ≡ join b',' t
unfolding print_tuple
print_tuple-join idx max [] h = refl
print_tuple-join idx max (x ∷ []) h =
    let last : (idx + 1 == max) ≡ true = ground arith in rw last (simp append-nil)
print_tuple-join idx max (x ∷ y ∷ t) h =
    let inside : (idx + 1 == max) ≡ false = ground arith in
    rw inside (
      append_assoc x (44 ∷ []) _
      ∙ ap (λ s. x ++ 44 ∷ s) (print_tuple-join (idx + 1) max (y ∷ t) (omega arith)))

-- A tuple is written with brackets around its elements and a comma between each two.
stream_tuple-join : (t : List Str) → stream_tuple t ≡ codes "[" ++ join b',' t ++ codes "]"
unfolding stream_tuple
stream_tuple-join t = rw (print_tuple-join 0 (length t) t (omega arith), stream_tuple) refl

-- Between its brackets, a tuple of non-empty texts without comma and NUL is read back by the tokenizer.
pub stream_tuple-safe_tokenize :
    (t : List Str)
    → All (IsToken (codes ",")) t
    → All NoNul t
    → (s : Str) × (stream_tuple t ≡ codes "[" ++ s ++ codes "]") × (safe_tokenize s (codes ",") ≡ t)
stream_tuple-safe_tokenize t k n =
    (join b',' t, stream_tuple-join t, safe_tokenize-join (codes ",") b',' refl t (omega arith) k n)
