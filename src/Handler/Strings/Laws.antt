-- ===== src/Handler/Strings/Laws.antt =====
-- Where the searches of `chomp` and `rtrimlast` of chromatic_imap/chromatic_imap_handler.cpp stop.
use chromatic_imap_cplus_plu.Text.{Str}
use chromatic_imap_cplus_plu.Handler.Strings.{
  suc, before, length, find_last_of, codes, find, find_first_of, rtrimlast, chomp,
}
use chromatic_imap_cplus_plu.Prelude.{
  zero, suc, take-length, append_assoc, length-append, sym, All, ℕ, ◌≡◌, ◌≢◌, refl, ap, ◌∙◌, [],
  ◌∷◌, ◌++◌, some, none, arith,
}

abbrev pub Without : ℕ → Str → Type 0
Without c s = All (λ d. d ≢ c) s

pub find_first_of-at :
    (c : ℕ) (s t : Str) → Without c s → find_first_of (c ∷ []) (s ++ c ∷ t) ≡ some (length s)
find_first_of-at c [] t w = ground arith
find_first_of-at c (d ∷ s) t w = ground (arith, find_first_of-at c s t w.1)

pub find_first_of-none : (c : ℕ) (s : Str) → Without c s → find_first_of (c ∷ []) s ≡ none
find_first_of-none c [] w = refl
find_first_of-none c (d ∷ s) w = ground (arith, find_first_of-none c s w.1)

pub find-at : (c : ℕ) (s t : Str) → Without c s → find (c ∷ []) (s ++ c ∷ t) ≡ some (length s)
find-at c [] t w = ground arith
find-at c (d ∷ s) t w = ground (arith, find-at c s t w.1)

pub find-none : (c : ℕ) (s : Str) → Without c s → find (c ∷ []) s ≡ none
find-none c [] w = refl
find-none c (d ∷ s) w = ground (arith, find-none c s w.1)

find_last_of-end : (c : ℕ) (s : Str) → find_last_of (c ∷ []) (s ++ c ∷ []) ≡ some (length s)
find_last_of-end c [] = ground arith
find_last_of-end c (d ∷ s) = rw (find_last_of-end c s, find_last_of) refl

length-last : (s : Str) (d : ℕ) → length (s ++ d ∷ []) ≡ suc (length s)
length-last s d = omega (arith, length-append s (d ∷ []))

before-last : (s rest : Str) (d : ℕ) → before (length (s ++ d ∷ [])) (s ++ d ∷ rest) ≡ s
before-last s rest d = rw (length-last s d) (take-length s (d ∷ rest))

chomp-found : (s token : Str) (idx : ℕ) → find token s ≡ some idx → chomp s token ≡ before idx s
unfolding chomp
chomp-found [] token zero e = refl
chomp-found [] token (suc zero) e = refl
chomp-found [] token (suc (suc idx)) e = refl
chomp-found (c ∷ s) token idx e = rw (e, chomp) refl

-- From a text with a line feed, `chomp` takes off the line feed with all behind it, and the byte before
-- it, whatever that is.
pub chomp-line :
    (s rest : Str) (d : ℕ) → Without 10 (s ++ d ∷ []) → chomp (s ++ d ∷ 10 ∷ rest) (codes "\n") ≡ s
chomp-line s rest d w =
    chomp-found (s ++ d ∷ 10 ∷ rest) (codes "\n") (length (s ++ d ∷ [])) (
      ap (find (codes "\n")) (sym (append_assoc s (d ∷ []) (10 ∷ rest)))
      ∙ find-at 10 (s ++ d ∷ []) rest w)
    ∙ before-last s (10 ∷ rest) d

rtrimlast-found :
    (s token : Str) (idx : ℕ)
    → find_last_of token s ≡ some idx
    → length s ≡ suc idx
    → rtrimlast s token ≡ before idx s
unfolding rtrimlast
rtrimlast-found [] token idx e l = ground arith
rtrimlast-found (c ∷ s) token idx e l = rw (e, rtrimlast) (ground arith)

-- So does `rtrimlast` where the line feed comes last.
pub rtrimlast-line : (s : Str) (d : ℕ) → rtrimlast (s ++ d ∷ 10 ∷ []) (codes "\n") ≡ s
rtrimlast-line s d =
    rtrimlast-found (s ++ d ∷ 10 ∷ []) (codes "\n") (length (s ++ d ∷ []))
      (ap (find_last_of (codes "\n")) (sym (append_assoc s (d ∷ []) (10 ∷ [])))
        ∙ find_last_of-end 10 (s ++ d ∷ []))
      (ap length (sym (append_assoc s (d ∷ []) (10 ∷ []))) ∙ length-last (s ++ d ∷ []) 10)
    ∙ before-last s (10 ∷ []) d
