-- ===== src/Text.antt =====
-- std::string as the sources use it: a list of bytes, with positions as numbers and `npos` as
-- `none`. Strings stay shorter than `npos`, so positions do not wrap. `substr` past the end, which
-- throws in C++, is met by no caller with a position out of range.
pub mod Decimal
use Prim.Native.Char.{code}
use Prim.Native.String.{String}
use chromatic_imap_cplus_plu.Prelude.{
  ℕ, zero, suc, ◌+◌, ◌-◌, Bool, true, false, ◌&&◌, ◌||◌, List, [], ◌∷◌, Option, none, some, leb,
  ◌==◌, if◌then◌else◌, take, drop,
}

abbrev pub Str : Type 0
Str = List ℕ

-- The bytes of an ASCII literal.
abbrev pub codes : String → Str
codes String.[] = []
codes (String.◌∷◌ c s) = code c ∷ codes s

-- str.compare( t ) == 0
abbrev pub same : Str → Str → Bool
same [] [] = true
same (x ∷ xs) (y ∷ ys) = x == y && same xs ys
same _ _ = false

-- Is the byte one of those of a set given as text?
abbrev pub one_of : Str → ℕ → Bool
one_of [] c = false
one_of (d ∷ ds) c = c == d || one_of ds c

abbrev pub is_prefix : Str → Str → Bool
is_prefix [] s = true
is_prefix (t ∷ ts) [] = false
is_prefix (t ∷ ts) (c ∷ s) = t == c && is_prefix ts s

abbrev pub succ_pos : Option ℕ → Option ℕ
succ_pos none = none
succ_pos (some i) = some (suc i)

-- find_first_of( set )
abbrev pub find_first_of : Str → Str → Option ℕ
find_first_of ds [] = none
find_first_of ds (c ∷ s) = if one_of ds c then some 0 else succ_pos (find_first_of ds s)

-- find_last_of( set )
abbrev pub last_pos : Bool → Option ℕ → Option ℕ
last_pos here (some i) = some (suc i)
last_pos true none = some 0
last_pos false none = none

abbrev pub find_last_of : Str → Str → Option ℕ
find_last_of ds [] = none
find_last_of ds (c ∷ s) = last_pos (one_of ds c) (find_last_of ds s)

-- find( text )
abbrev pub find : Str → Str → Option ℕ
find t [] = if is_prefix t [] then some 0 else none
find t (c ∷ s) = if is_prefix t (c ∷ s) then some 0 else succ_pos (find t s)

abbrev pub found : Option ℕ → Bool
found none = false
found (some i) = true

-- substr( i ) and substr( i , n )
abbrev pub substr : ℕ → Str → Str
substr = drop

abbrev pub substr_len : ℕ → ℕ → Str → Str
substr_len i n s = take n (drop i s)

-- erase( i , 1 )
abbrev pub erase_at : ℕ → Str → Str
erase_at i [] = []
erase_at zero (c ∷ s) = s
erase_at (suc i) (c ∷ s) = c ∷ erase_at i s

-- What a C string shows of the bytes: those before the first NUL.
abbrev pub c_str : Str → Str
c_str [] = []
c_str (zero ∷ s) = []
c_str (suc c ∷ s) = suc c ∷ c_str s

abbrev pub is_empty : Str → Bool
is_empty [] = true
is_empty (c ∷ s) = false

-- <cctype>, in the C locale.
abbrev pub is_digit : ℕ → Bool
is_digit c = leb b'0' c && leb c b'9'

abbrev pub is_upper : ℕ → Bool
is_upper c = leb b'A' c && leb c b'Z'

abbrev pub is_lower : ℕ → Bool
is_lower c = leb b'a' c && leb c b'z'

abbrev pub is_alpha : ℕ → Bool
is_alpha c = is_upper c || is_lower c

unfoldable pub to_lower : ℕ → ℕ
to_lower c = if is_upper c then c + 32 else c

unfoldable pub to_upper : ℕ → ℕ
to_upper c = if is_lower c then c - 32 else c
