-- ===== src/Handler/Strings.antt =====
-- The string helpers of chromatic_imap/chromatic_imap_handler.cpp.
pub mod Laws
use mathlib.Core.List.{reverse}
use chromatic_imap_cplus_plu.Prelude.{
  ℕ, zero, suc, ◌-◌, Bool, not, [], ◌∷◌, map, none, some, ◌==◌, if◌then◌else◌, length, take,
}
use chromatic_imap_cplus_plu.Text.{
  Str, codes, one_of, find, find_first_of, find_last_of, erase_at, to_lower, to_upper, c_str,
}

-- str.substr( 0 , --idx ): below 0 the position wraps to `npos`, and all is kept.
abbrev pub before : ℕ → Str → Str
before zero str = str
before (suc idx) str = take idx str

unfoldable pub chomp : Str → Str → Str
chomp [] token = []
chomp (c ∷ s) token = elim (find token (c ∷ s)) [ none ↦ c ∷ s | some idx ↦ before idx (c ∷ s) ]

unfoldable pub gnaw : Str → Str → Str
gnaw str token = elim (find token str) [ none ↦ str | some st ↦ take st str ]

unfoldable pub extract_quoted_string : Str → Str
extract_quoted_string s = elim (find_first_of (codes "\"") s) [
  | none ↦ s
  | some idx ↦
      let opened = erase_at idx s in
      elim (find_last_of (codes "\"") opened) [ none ↦ opened | some jdx ↦ erase_at jdx opened ]
]

unfoldable pub rtrimlast : Str → Str → Str
rtrimlast [] token = []
rtrimlast (c ∷ s) token = elim (find_last_of token (c ∷ s)) [
  | none ↦ c ∷ s
  | some idx ↦ if not (idx == length (c ∷ s) - 1) then c ∷ s else before idx (c ∷ s)
]

-- strchr finds the NUL that ends its text too, so a NUL counts as a byte to trim.
abbrev pub trims : Str → ℕ → Bool
trims chars c = one_of (0 ∷ c_str chars) c

-- At the end of the text the loop meets the NUL behind it, and returns the empty text.
unfoldable pub ltrim : Str → Str → Str
ltrim [] chars = []
ltrim (c ∷ s) chars = if trims chars c then ltrim s chars else c ∷ s

-- The loop, with the text reversed: a text of one byte or none is returned as the empty one.
unfoldable pub rtrim_reversed : Str → Str → Str
rtrim_reversed [] chars = []
rtrim_reversed (c ∷ []) chars = []
rtrim_reversed (c ∷ d ∷ s) chars =
    let rest = rtrim_reversed (d ∷ s) chars in if trims chars c then rest else c ∷ d ∷ s

unfoldable pub rtrim : Str → Str → Str
unfolding rtrim_reversed
rtrim str chars = reverse (rtrim_reversed (reverse str) chars)

unfoldable pub lcase : Str → Str
unfolding to_lower
lcase str = map to_lower str

unfoldable pub ucase : Str → Str
unfolding to_upper
ucase str = map to_upper str
