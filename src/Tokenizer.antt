-- ===== src/Tokenizer.antt =====
-- include/generic.h: `safe_tokenize_t`, which splits every parameter list of the protocol.
-- A position of the source is the suffix of the text that starts there, and `npos` the empty one.
pub mod Laws
use chromatic_imap_cplus_plu.Prelude.{ℕ, zero, suc, Bool, List, [], ◌∷◌, if◌then◌else◌, length}
use chromatic_imap_cplus_plu.Text.{Str, one_of, c_str}

-- find_first_not_of( delimiters , pos )
abbrev pub skip_delimiters : Str → Str → Str
skip_delimiters ds [] = []
skip_delimiters ds (c ∷ s) = if one_of ds c then skip_delimiters ds s else c ∷ s

-- substr( lastPos , pos - lastPos ), for `pos` the next delimiter or the end
abbrev pub upto_delimiter : Str → Str → Str
upto_delimiter ds [] = []
upto_delimiter ds (c ∷ s) = if one_of ds c then [] else c ∷ upto_delimiter ds s

-- find_first_of( delimiters , lastPos )
abbrev pub from_delimiter : Str → Str → Str
from_delimiter ds [] = []
from_delimiter ds (c ∷ s) = if one_of ds c then c ∷ s else from_delimiter ds s

-- The `while` loop, from `lastPos`; it ends with `lastPos`, since `pos` lies behind it.
unfoldable pub tokenize_loop : ℕ → Str → Str → List Str
tokenize_loop zero ds s = []
tokenize_loop (suc fuel) ds [] = []
tokenize_loop (suc fuel) ds (c ∷ s) =
    upto_delimiter ds (c ∷ s)
    ∷ tokenize_loop fuel ds (skip_delimiters ds (from_delimiter ds (c ∷ s)))

-- The argument is a C string: what stands behind a NUL is not read.
unfoldable pub safe_tokenize : Str → Str → List Str
unfolding tokenize_loop
safe_tokenize str ds =
    let text = c_str str in tokenize_loop (suc (length text)) ds (skip_delimiters ds text)
