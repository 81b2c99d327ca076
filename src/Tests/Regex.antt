-- ===== src/Tests/Regex.antt =====
-- A matcher for the expressions that LIST builds, which does what is documented for them.
use chromatic_imap_cplus_plu.Prelude.{
  length-append, ◌==◌, ℕ, zero, suc, ◌≤◌, ◌≡◌, refl, Bool, false, List, [], ◌∷◌, ◌++◌, Option, none,
  some, length, drop, if◌then◌else◌, arith,
}
use chromatic_imap_cplus_plu.Text.{Str, codes, same, is_prefix}
use chromatic_imap_cplus_plu.Manager.Folders.Patterns.{
  Piece, anything, below, literal, special, matches, Spells, nothing, dot_star, class_star, quoted,
  plain, Documented,
}

abbrev token_quoted : Str → Option (Piece × Str)
token_quoted [] = none
token_quoted (c ∷ t) = some (literal c, t)

abbrev token_plain : Str → Option (Piece × Str)
token_plain [] = none
token_plain (c ∷ t) = if special c then none else some (literal c, t)

abbrev next_token : Str → Option (Piece × Str)
next_token s =
    if is_prefix (codes ".*") s
    then some (anything, drop 2 s)
    else if is_prefix (codes "[^/]*") s
    then some (below, drop 5 s)
    else if is_prefix (codes "\\") s
    then token_quoted (drop 1 s)
    else token_plain s

unfoldable parse_regex : ℕ → Str → Option (List Piece)
parse_regex zero s = none
parse_regex (suc n) s = if same s (codes "$") then some [] else elim (next_token s) [
  | none ↦ none
  | some t ↦ elim (parse_regex n t.1) [ none ↦ none | some ps ↦ some (t.0 ∷ ps) ]
]

unfoldable pub run_regex : Str → Str → Option Bool
unfolding parse_regex
run_regex [] name = none
run_regex (c ∷ t) name = elim (parse_regex (length t) t) [
  | none ↦ none
  | some ps ↦ some (matches ps name)
]

plain-not_end : (c : ℕ) (t : Str) → special c ≡ false → same (c ∷ t) (codes "$") ≡ false
plain-not_end c [] h = ground arith
plain-not_end c (d ∷ t) h = ground arith

plain-next_token : (c : ℕ) (t : Str) → special c ≡ false → next_token (c ∷ t) ≡ some (literal c, t)
plain-next_token c t h =
    let dot : 46 == c ≡ false = ground arith in
    let bracket : 91 == c ≡ false = ground arith in
    let backslash : 92 == c ≡ false = ground arith in rw (dot, bracket, backslash, h) refl

parse_regex-step :
    (n : ℕ) (s t : Str) (p : Piece) (ps : List Piece)
    → same s (codes "$") ≡ false
    → next_token s ≡ some (p, t)
    → parse_regex n t ≡ some ps
    → parse_regex (suc n) s ≡ some (p ∷ ps)
unfolding parse_regex
parse_regex-step n s t p ps e f g = rw (e, f, g) refl

parse_regex-Spells :
    {t : Str} {ps : List Piece} (n : ℕ)
    → Spells t ps
    → length (t ++ 36 ∷ []) ≤ n
    → parse_regex n (t ++ 36 ∷ []) ≡ some ps
parse_regex-Spells {t} zero h l = absurd (omega (arith, length-append t (36 ∷ [])))
parse_regex-Spells (suc n) nothing l = unfold parse_regex in refl
parse_regex-Spells (suc n) (dot_star {t = t} {ps = ps} h) l =
    parse_regex-step n (codes ".*" ++ t ++ 36 ∷ []) (t ++ 36 ∷ []) anything ps refl refl
      (parse_regex-Spells n h (omega arith))
parse_regex-Spells (suc n) (class_star {t = t} {ps = ps} h) l =
    parse_regex-step n (codes "[^/]*" ++ t ++ 36 ∷ []) (t ++ 36 ∷ []) below ps refl refl
      (parse_regex-Spells n h (omega arith))
parse_regex-Spells (suc n) (quoted {c = c} {t = t} {ps = ps} e h) l =
    parse_regex-step n (92 ∷ c ∷ (t ++ 36 ∷ [])) (t ++ 36 ∷ []) (literal c) ps refl refl
      (parse_regex-Spells n h (omega arith))
parse_regex-Spells (suc n) (plain {c = c} {t = t} {ps = ps} e h) l =
    parse_regex-step n (c ∷ (t ++ 36 ∷ [])) (t ++ 36 ∷ []) (literal c) ps
      (plain-not_end c (t ++ 36 ∷ []) e) (plain-next_token c (t ++ 36 ∷ []) e)
      (parse_regex-Spells n h (omega arith))

pub run_regex-Documented : Documented run_regex
unfolding run_regex
run_regex-Documented t name ps h =
    rw (parse_regex-Spells (length (t ++ 36 ∷ [])) h (omega arith), run_regex) refl
