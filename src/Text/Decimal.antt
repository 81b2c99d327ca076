-- ===== src/Text/Decimal.antt =====
-- Decimal numbers: `ostr << n` and boost::lexical_cast print one, `atoi` reads one.
use mathlib.Core.List.{concat-ne-nil}
use chromatic_imap_cplus_plu.Prelude.{
  Bool-cases, inl, inr, ℕ, zero, suc, ◌+◌, ◌-◌, ◌*◌, ◌/◌, ◌%◌, ◌<◌, min, ◌≡◌, ◌≢◌, refl, ◌∙◌, Bool,
  true, ◌&&◌, ◌||◌, [], ◌∷◌, ◌++◌, arith, ltb, leb, ◌==◌, if◌then◌else◌, All, All-append,
}
use chromatic_imap_cplus_plu.Prelude.Int.{ℤ, pos, negsuc}
use chromatic_imap_cplus_plu.Text.{Str, is_digit}

-- `fuel` bounds the number of digits; `n + 1` is enough.
unfoldable pub digits_of : ℕ → ℕ → Str
digits_of zero n = []
digits_of (suc fuel) n =
    let rest = digits_of fuel (n / 10) in
    if ltb n 10 then (48 + n) ∷ [] else rest ++ (48 + n % 10) ∷ []

unfoldable pub show : ℕ → Str
unfolding digits_of
show n = digits_of (suc n) n

abbrev pub is_space : ℕ → Bool
is_space c = c == b' ' || leb 9 c && leb c 13

abbrev pub skip_spaces : Str → Str
skip_spaces [] = []
skip_spaces (c ∷ s) = if is_space c then skip_spaces s else c ∷ s

-- The number that the leading digits spell.
unfoldable pub digits_value : ℕ → Str → ℕ
digits_value n [] = n
digits_value n (c ∷ s) = if is_digit c then digits_value (n * 10 + (c - 48)) s else n

abbrev pub long_max : ℕ
long_max = 9_223_372_036_854_775_807

-- The conversion of a long to an int keeps the low 32 bits.
unfoldable pub long_to_int : ℤ → ℤ
long_to_int (pos n) =
    let r = n % 4_294_967_296 in if ltb r 2_147_483_648 then pos r else negsuc (4_294_967_295 - r)
long_to_int (negsuc n) =
    let r = n % 4_294_967_296 in if ltb r 2_147_483_648 then negsuc r else pos (4_294_967_295 - r)

-- A negative number by its size.
abbrev pub neg : ℕ → ℤ
neg zero = pos 0
neg (suc n) = negsuc n

abbrev pub read_signed : Str → ℤ
read_signed [] = pos 0
read_signed (c ∷ s) =
    if c == b'-'
    then neg (min (digits_value 0 s) (long_max + 1))
    else if c == b'+'
    then pos (min (digits_value 0 s) long_max)
    else pos (min (digits_value 0 (c ∷ s)) long_max)

-- atoi as the C library computes it: `(int) strtol( s , NULL , 10 )`, where strtol stays within
-- the range of a long.
unfoldable pub atoi : Str → ℤ
unfolding digits_value long_to_int
atoi s = long_to_int (read_signed (skip_spaces s))

abbrev pub AllDigits : Str → Type 0
AllDigits = All (λ c. is_digit c ≡ true)

digits_of-AllDigits : (fuel n : ℕ) → AllDigits (digits_of fuel n)
unfolding digits_of
digits_of-AllDigits zero n = tt
digits_of-AllDigits (suc fuel) n = elim (Bool-cases (ltb n 10)) [
  | inl low ↦ rw low (ground arith, tt)
  | inr high ↦ rw high (
      All-append (λ c. is_digit c ≡ true) (digits_of fuel (n / 10)) ((48 + n % 10) ∷ [])
        (digits_of-AllDigits fuel (n / 10)) (ground arith, tt))
]

pub show-AllDigits : (n : ℕ) → AllDigits (show n)
unfolding show
show-AllDigits n = digits_of-AllDigits (suc n) n

digits_value-snoc :
    (m : ℕ) (s : Str) (d : ℕ)
    → AllDigits s
    → d < 10
    → digits_value m (s ++ (48 + d) ∷ []) ≡ digits_value m s * 10 + d
unfolding digits_value
digits_value-snoc m [] d h k = ground arith
digits_value-snoc m (c ∷ s) d h k = ground (arith, digits_value-snoc (m * 10 + (c - 48)) s d h.1)

digits_value-digits_of : (fuel n : ℕ) → n < fuel → digits_value 0 (digits_of fuel n) ≡ n
unfolding digits_of digits_value
digits_value-digits_of zero n h = elim h [ ]
digits_value-digits_of (suc fuel) n h = ground (
  arith,
  digits_value-snoc 0 (digits_of fuel (n / 10)) (n % 10) (digits_of-AllDigits fuel (n / 10)),
  digits_value-digits_of fuel (n / 10),
)

pub digits_value-show : (n : ℕ) → digits_value 0 (show n) ≡ n
unfolding show
digits_value-show n = digits_value-digits_of (suc n) n (omega arith)

digits_of-ne-nil : (fuel n : ℕ) → digits_of (suc fuel) n ≢ []
unfolding digits_of
digits_of-ne-nil fuel n = elim (Bool-cases (ltb n 10)) [
  | inl low ↦ rw low (λ e. cc)
  | inr high ↦ rw high (concat-ne-nil (48 + n % 10) (digits_of fuel (n / 10)))
]

pub show-ne-nil : (n : ℕ) → show n ≢ []
unfolding show
show-ne-nil n = digits_of-ne-nil n n

atoi-AllDigits :
    (s : Str) → s ≢ [] → AllDigits s → atoi s ≡ long_to_int (pos (min (digits_value 0 s) long_max))
unfolding atoi
atoi-AllDigits [] h k = absurd (h refl)
atoi-AllDigits (c ∷ s) h k = ground arith

-- atoi reads back every printed number that fits an int.
pub atoi-show : (n : ℕ) → n < 2_147_483_648 → atoi (show n) ≡ pos n
atoi-show n h =
    atoi-AllDigits (show n) (show-ne-nil n) (show-AllDigits n)
    ∙ unfold long_to_int in ground (arith, digits_value-show n)
