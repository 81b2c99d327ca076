-- ===== src/Base64.antt =====
-- chromatic_imap/chromatic_imap_mgr.cpp: `base64_encode` and `base64_decode`, by which the manager
-- names the files of its message store. A byte is a number below 256.
pub mod Bits
pub mod RoundTrip
use Prim.Native.Nat.{bit_and}
use chromatic_imap_cplus_plu.Prelude.{
  ℕ, zero, suc, ◌+◌, ◌*◌, ◌/◌, ◌%◌, Bool, true, false, not, ◌&&◌, ◌||◌, List, [], ◌∷◌, ◌++◌, Option,
  none, some, ◌==◌, if◌then◌else◌, get_elem?,
}
use chromatic_imap_cplus_plu.Text.{Str, codes, one_of, find_first_of, is_alpha, is_digit}

abbrev pub base64_chars : Str
base64_chars = codes "ABCDEFGHIJKLMNOPQRSTUVWXYZabcdefghijklmnopqrstuvwxyz0123456789+/"

unfoldable pub is_base64 : ℕ → Bool
is_base64 c = is_alpha c || is_digit c || c == b'+' || c == b'/'

-- base64_chars[ i ]; a string holds a NUL behind its end.
unfoldable pub char_of : ℕ → ℕ
char_of i = elim (get_elem? base64_chars i) [ none ↦ 0 | some c ↦ c ]

-- base64_chars.find( c ), stored in an unsigned char: `npos` becomes 255.
unfoldable pub index_of : ℕ → ℕ
index_of c = elim (find_first_of (c ∷ []) base64_chars) [ none ↦ 255 | some i ↦ i ]

-- char_array_4 from char_array_3
unfoldable pub sextet_0 : ℕ → ℕ
sextet_0 a = bit_and a 0xfc / 4

unfoldable pub sextet_1 : ℕ → ℕ → ℕ
sextet_1 a b = (bit_and a 0x03 * 16 + bit_and b 0xf0 / 16) % 256

unfoldable pub sextet_2 : ℕ → ℕ → ℕ
sextet_2 b c = (bit_and b 0x0f * 4 + bit_and c 0xc0 / 64) % 256

unfoldable pub sextet_3 : ℕ → ℕ
sextet_3 c = bit_and c 0x3f

-- char_array_3 from char_array_4
unfoldable pub octet_0 : ℕ → ℕ → ℕ
octet_0 a b = (a * 4 + bit_and b 0x30 / 16) % 256

unfoldable pub octet_1 : ℕ → ℕ → ℕ
octet_1 b c = (bit_and b 0xf * 16 + bit_and c 0x3c / 4) % 256

unfoldable pub octet_2 : ℕ → ℕ → ℕ
octet_2 c d = (bit_and c 0x3 * 64 + d) % 256

-- The bytes waiting in char_array_3, `i` of them.
pub data Waiting : Type 0 where
  none_yet : Waiting
  one_byte : ℕ → Waiting
  two_bytes : ℕ → ℕ → Waiting

-- What is left when the input ends: zeros fill char_array_3, and `=` the text.
unfoldable pub encode_end : Waiting → Str
encode_end none_yet = []
encode_end (one_byte a) = char_of (sextet_0 a) ∷ char_of (sextet_1 a 0) ∷ b'=' ∷ b'=' ∷ []
encode_end (two_bytes a b) =
    char_of (sextet_0 a) ∷ char_of (sextet_1 a b) ∷ char_of (sextet_2 b 0) ∷ b'=' ∷ []

unfoldable pub encode_loop : Waiting → Str → Str → Str
unfolding encode_end
encode_loop w ret [] = ret ++ encode_end w
encode_loop none_yet ret (c ∷ s) = encode_loop (one_byte c) ret s
encode_loop (one_byte a) ret (c ∷ s) = encode_loop (two_bytes a c) ret s
encode_loop (two_bytes a b) ret (c ∷ s) =
    encode_loop none_yet
      (ret
        ++ char_of (sextet_0 a)
          ∷ char_of (sextet_1 a b)
          ∷ char_of (sextet_2 b c)
          ∷ char_of (sextet_3 c)
          ∷ [])
      s

unfoldable pub base64_encode : Str → Str
unfolding encode_loop
base64_encode bytes = encode_loop none_yet [] bytes

-- The characters waiting in char_array_4, `i` of them.
pub data Pending : Type 0 where
  no_char : Pending
  one_char : ℕ → Pending
  two_chars : ℕ → ℕ → Pending
  three_chars : ℕ → ℕ → ℕ → Pending

-- What is left when the loop ends: zeros fill char_array_4 and are looked up with the rest, and
-- `i - 1` bytes are kept.
unfoldable pub decode_end : Pending → Str
decode_end no_char = []
decode_end (one_char a) = []
decode_end (two_chars a b) = octet_0 (index_of a) (index_of b) ∷ []
decode_end (three_chars a b c) =
    octet_0 (index_of a) (index_of b) ∷ octet_1 (index_of b) (index_of c) ∷ []

unfoldable pub decode_step : Pending → ℕ → Pending × Str
decode_step no_char c = (one_char c, [])
decode_step (one_char a) c = (two_chars a c, [])
decode_step (two_chars a b) c = (three_chars a b c, [])
decode_step (three_chars a b c) d = (
  no_char,
  octet_0 (index_of a) (index_of b)
      ∷ octet_1 (index_of b) (index_of c)
      ∷ octet_2 (index_of c) (index_of d)
      ∷ [],
)

-- The loop stops at the end, at `=` and at any character that is not of the alphabet.
unfoldable pub decode_loop : Pending → Str → Str → Str
unfolding decode_end decode_step is_base64
decode_loop p ret [] = ret ++ decode_end p
decode_loop p ret (c ∷ s) =
    let rest = decode_loop (decode_step p c).0 (ret ++ (decode_step p c).1) s in
    if not (c == b'=') && is_base64 c then rest else ret ++ decode_end p

unfoldable pub base64_decode : Str → Str
unfolding decode_loop
base64_decode text = decode_loop no_char [] text
