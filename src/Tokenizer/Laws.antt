-- ===== src/Tokenizer/Laws.antt =====
-- What `safe_tokenize_t` of include/generic.h returns.
use chromatic_imap_cplus_plu.Prelude.{
  ℕ, zero, suc, ◌≤◌, ◌<◌, ◌≡◌, ◌≢◌, refl, ap, ◌∙◌, true, false, not, List, [], ◌∷◌, ◌++◌, arith,
  length, length-append, keep, All, All-append, sym, append-nil,
}
use chromatic_imap_cplus_plu.Text.{Str, one_of, c_str}
use chromatic_imap_cplus_plu.Tokenizer.{
  skip_delimiters, upto_delimiter, from_delimiter, tokenize_loop, safe_tokenize,
}

-- No byte of the text is a delimiter.
abbrev pub Free : Str → Str → Type 0
Free ds s = All (λ c. one_of ds c ≡ false) s

abbrev pub IsToken : Str → Str → Type 0
IsToken ds t = (t ≢ []) × Free ds t

abbrev pub join_all : List Str → Str
join_all [] = []
join_all (t ∷ ts) = t ++ join_all ts

abbrev pub without : Str → Str → Str
without ds = keep (λ c. not (one_of ds c))

length-skip : (ds s : Str) → length (skip_delimiters ds s) ≤ length s
length-skip ds [] = omega arith
length-skip ds (c ∷ s) = ground (arith, length-skip ds s)

length-from : (ds s : Str) → length (from_delimiter ds s) ≤ length s
length-from ds [] = omega arith
length-from ds (c ∷ s) = ground (arith, length-from ds s)

upto-Free : (ds s : Str) → Free ds (upto_delimiter ds s)
upto-Free ds [] = tt
upto-Free ds (c ∷ s) = ground (arith, upto-Free ds s)

-- The suffix in hand at the head of the loop starts with no delimiter.
abbrev IsStart : Str → Str → Type 0
IsStart ds [] = Unit
IsStart ds (c ∷ s) = one_of ds c ≡ false

skip-IsStart : (ds s : Str) → IsStart ds (skip_delimiters ds s)
skip-IsStart ds [] = tt
skip-IsStart ds (c ∷ s) = ground (arith, skip-IsStart ds s)

without-skip : (ds s : Str) → without ds (skip_delimiters ds s) ≡ without ds s
without-skip ds [] = refl
without-skip ds (c ∷ s) = ground (arith, without-skip ds s)

without-split :
    (ds s : Str) → upto_delimiter ds s ++ without ds (from_delimiter ds s) ≡ without ds s
without-split ds [] = refl
without-split ds (c ∷ s) = ground (arith, without-split ds s)

loop-All : (fuel : ℕ) (ds s : Str) → IsStart ds s → All (IsToken ds) (tokenize_loop fuel ds s)
unfolding tokenize_loop
loop-All zero ds s h = tt
loop-All (suc fuel) ds [] h = tt
loop-All (suc fuel) ds (c ∷ s) h = (
  (ground arith, upto-Free ds (c ∷ s)),
  loop-All fuel ds _ (skip-IsStart ds (from_delimiter ds (c ∷ s))),
)

length-next :
    (ds s : Str) (c : ℕ)
    → one_of ds c ≡ false
    → length (skip_delimiters ds (from_delimiter ds (c ∷ s))) < length (c ∷ s)
length-next ds s c h = ground (arith, length-from ds s, length-skip ds (from_delimiter ds s))

loop-join_all :
    (fuel : ℕ) (ds s : Str)
    → length s < fuel
    → IsStart ds s
    → join_all (tokenize_loop fuel ds s) ≡ without ds s
unfolding tokenize_loop
loop-join_all zero ds s h k = elim h [ ]
loop-join_all (suc fuel) ds [] h k = refl
loop-join_all (suc fuel) ds (c ∷ s) h k =
    ap (◌++◌ (upto_delimiter ds (c ∷ s))) (
      loop-join_all fuel ds (skip_delimiters ds (from_delimiter ds (c ∷ s)))
        (omega (arith, length-next ds s c k)) (skip-IsStart ds (from_delimiter ds (c ∷ s)))
      ∙ without-skip ds (from_delimiter ds (c ∷ s)))
    ∙ without-split ds (c ∷ s)

-- For every text and every set of delimiters, each token is a non-empty text with no delimiter in
-- it, and the tokens joined in order are the bytes before the first NUL less the delimiters.
pub safe_tokenize_content :
    (str ds : Str)
    → All (IsToken ds) (safe_tokenize str ds)
      × (join_all (safe_tokenize str ds) ≡ without ds (c_str str))
unfolding safe_tokenize
safe_tokenize_content str ds = (
  loop-All (suc (length (c_str str))) ds _ (skip-IsStart ds (c_str str)),
  loop-join_all (suc (length (c_str str))) ds _ (omega (arith, length-skip ds (c_str str)))
        (skip-IsStart ds (c_str str))
      ∙ without-skip ds (c_str str),
)

-- The texts with one separator between each two.
abbrev pub join : ℕ → List Str → Str
join d [] = []
join d (t ∷ []) = t
join d (t ∷ u ∷ ts) = t ++ d ∷ join d (u ∷ ts)

abbrev pub NoNul : Str → Type 0
NoNul s = All (λ c. c ≢ 0) s

pub c_str-NoNul : (s : Str) → NoNul s → c_str s ≡ s
c_str-NoNul [] h = refl
c_str-NoNul (zero ∷ s) h = absurd (h.0 refl)
c_str-NoNul (suc c ∷ s) h = ap (◌∷◌ (suc c)) (c_str-NoNul s h.1)

join-NoNul : (d : ℕ) (ts : List Str) → d ≢ 0 → All NoNul ts → NoNul (join d ts)
join-NoNul d [] h k = tt
join-NoNul d (t ∷ []) h k = k.0
join-NoNul d (t ∷ u ∷ ts) h k =
    All-append (λ c. c ≢ 0) t (d ∷ join d (u ∷ ts)) k.0 (h, join-NoNul d (u ∷ ts) h k.1)

skip-token : (ds t rest : Str) → IsToken ds t → skip_delimiters ds (t ++ rest) ≡ t ++ rest
skip-token ds [] rest h = absurd (h.0 refl)
skip-token ds (c ∷ t) rest h = ground arith

skip-join :
    (ds : Str) (d : ℕ) (ts : List Str)
    → All (IsToken ds) ts
    → skip_delimiters ds (join d ts) ≡ join d ts
skip-join ds d [] h = refl
skip-join ds d (t ∷ []) h =
    ap (skip_delimiters ds) (sym (append-nil t)) ∙ skip-token ds t [] h.0 ∙ append-nil t
skip-join ds d (t ∷ u ∷ ts) h = skip-token ds t (d ∷ join d (u ∷ ts)) h.0

upto-end : (ds t : Str) → Free ds t → upto_delimiter ds t ≡ t
upto-end ds [] h = refl
upto-end ds (c ∷ t) h = ground (arith, upto-end ds t h.1)

from-end : (ds t : Str) → Free ds t → from_delimiter ds t ≡ []
from-end ds [] h = refl
from-end ds (c ∷ t) h = ground (arith, from-end ds t h.1)

module _ (ds : Str) (d : ℕ) (delimiter : one_of ds d ≡ true) where
  upto-stop : (t rest : Str) → Free ds t → upto_delimiter ds (t ++ d ∷ rest) ≡ t
  upto-stop [] rest h = ground arith
  upto-stop (c ∷ t) rest h = ground (arith, upto-stop t rest h.1)

  from-stop : (t rest : Str) → Free ds t → from_delimiter ds (t ++ d ∷ rest) ≡ d ∷ rest
  from-stop [] rest h = ground arith
  from-stop (c ∷ t) rest h = ground (arith, from-stop t rest h.1)

  loop_step :
      (fuel : ℕ) (t rest : Str)
      → IsToken ds t
      → tokenize_loop (suc fuel) ds (t ++ d ∷ rest)
        ≡ t ∷ tokenize_loop fuel ds (skip_delimiters ds rest)
  unfolding tokenize_loop
  loop_step fuel [] rest h = absurd (h.0 refl)
  loop_step fuel (c ∷ t) rest h = ground (arith, upto-stop t rest h.1.1, from-stop t rest h.1.1)

  loop_last : (fuel : ℕ) (t : Str) → IsToken ds t → tokenize_loop (suc (suc fuel)) ds t ≡ t ∷ []
  unfolding tokenize_loop
  loop_last fuel [] h = absurd (h.0 refl)
  loop_last fuel (c ∷ t) h = ground (arith, upto-end ds t h.1.1, from-end ds t h.1.1)

  loop-join :
      (fuel : ℕ) (ts : List Str)
      → length (join d ts) ≤ fuel
      → All (IsToken ds) ts
      → tokenize_loop (suc fuel) ds (join d ts) ≡ ts
  loop-join zero [] h k = unfold tokenize_loop in refl
  loop-join zero ([] ∷ ts) h k = absurd (k.0.0 refl)
  loop-join zero ((c ∷ t) ∷ []) h k = absurd (omega arith)
  loop-join zero ((c ∷ t) ∷ u ∷ ts) h k = absurd (omega arith)
  loop-join (suc fuel) [] h k = unfold tokenize_loop in refl
  loop-join (suc fuel) (t ∷ []) h k = loop_last fuel t k.0
  loop-join (suc fuel) (t ∷ u ∷ ts) h k =
      loop_step (suc fuel) t (join d (u ∷ ts)) k.0
      ∙ ap (λ s. t ∷ tokenize_loop (suc fuel) ds s) (skip-join ds d (u ∷ ts) k.1)
      ∙ ap (◌∷◌ t)
          (loop-join fuel (u ∷ ts) (omega (arith, length-append t (d ∷ join d (u ∷ ts)))) k.1)

  -- Splitting undoes joining: non-empty texts with no delimiter and no NUL in them, written with
  -- one delimiter other than NUL between each two, are read back as they were.
  pub safe_tokenize-join :
      (ts : List Str)
      → d ≢ 0
      → All (IsToken ds) ts
      → All NoNul ts
      → safe_tokenize (join d ts) ds ≡ ts
  unfolding safe_tokenize
  safe_tokenize-join ts h k n =
      rw (c_str-NoNul (join d ts) (join-NoNul d ts h n), skip-join ds d ts k)
        (loop-join (length (join d ts)) ts (omega arith) k)
