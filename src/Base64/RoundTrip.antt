-- ===== src/Base64/RoundTrip.antt =====
-- Decoding gives back what was encoded.
use chromatic_imap_cplus_plu.Prelude.{
  ℕ, ◌+◌, ◌*◌, ◌/◌, ◌<◌, ◌≡◌, refl, ap, ◌∙◌, [], ◌∷◌, ◌++◌, arith, length, All, append-nil,
  append_assoc,
}
use chromatic_imap_cplus_plu.Text.{Str}
use chromatic_imap_cplus_plu.Base64.Bits.{letters, sextet_bounds, octets}
use chromatic_imap_cplus_plu.Base64.{
  char_of, sextet_0, sextet_1, sextet_2, sextet_3, octet_0, octet_1, octet_2, none_yet, one_byte,
  two_bytes, encode_end, encode_loop, base64_encode, Pending, no_char, one_char, two_chars,
  three_chars, decode_end, decode_step, decode_loop, base64_decode,
}

abbrev pub IsBytes : Str → Type 0
IsBytes = All (λ c. c < 256)

-- The encoding by groups of three bytes, with no accumulator.
encoded : Str → Str
encoded [] = []
encoded (a ∷ []) = encode_end (one_byte a)
encoded (a ∷ b ∷ []) = encode_end (two_bytes a b)
encoded (a ∷ b ∷ c ∷ s) =
    char_of (sextet_0 a)
    ∷ char_of (sextet_1 a b)
    ∷ char_of (sextet_2 b c)
    ∷ char_of (sextet_3 c)
    ∷ encoded s

encode_loop-encoded : (s ret : Str) → encode_loop none_yet ret s ≡ ret ++ encoded s
unfolding encode_loop encoded encode_end
encode_loop-encoded [] ret = refl
encode_loop-encoded (a ∷ []) ret = refl
encode_loop-encoded (a ∷ b ∷ []) ret = refl
encode_loop-encoded (a ∷ b ∷ c ∷ s) ret = encode_loop-encoded s _ ∙ append_assoc ret _ (encoded s)

-- One letter of the alphabet is taken by the loop; an `=` stops it.
decode_loop-letter :
    (p : Pending) (ret s : Str) (i : ℕ)
    → i < 64
    → decode_loop p ret (char_of i ∷ s)
      ≡ decode_loop (decode_step p (char_of i)).0 (ret ++ (decode_step p (char_of i)).1) s
unfolding decode_loop
decode_loop-letter p ret s i h = rw ((letters i h).1)

decode_loop_stop : (p : Pending) (ret s : Str) → decode_loop p ret (b'=' ∷ s) ≡ ret ++ decode_end p
unfolding decode_loop
decode_loop_stop p ret s = refl

module _ (ret s : Str) where
  take_first :
      (i : ℕ)
      → i < 64
      → decode_loop no_char ret (char_of i ∷ s) ≡ decode_loop (one_char (char_of i)) ret s
  unfolding decode_step
  take_first i h =
      decode_loop-letter no_char ret s i h
      ∙ ap (λ r. decode_loop (one_char (char_of i)) r s) (append-nil ret)

  take_second :
      (i j : ℕ)
      → j < 64
      → decode_loop (one_char (char_of i)) ret (char_of j ∷ s)
        ≡ decode_loop (two_chars (char_of i) (char_of j)) ret s
  unfolding decode_step
  take_second i j h =
      decode_loop-letter (one_char (char_of i)) ret s j h
      ∙ ap (λ r. decode_loop (two_chars (char_of i) (char_of j)) r s) (append-nil ret)

  take_third :
      (i j k : ℕ)
      → k < 64
      → decode_loop (two_chars (char_of i) (char_of j)) ret (char_of k ∷ s)
        ≡ decode_loop (three_chars (char_of i) (char_of j) (char_of k)) ret s
  unfolding decode_step
  take_third i j k h =
      decode_loop-letter (two_chars (char_of i) (char_of j)) ret s k h
      ∙ ap (λ r. decode_loop (three_chars (char_of i) (char_of j) (char_of k)) r s) (append-nil ret)

  take_fourth :
      (i j k l : ℕ)
      → i < 64
      → j < 64
      → k < 64
      → l < 64
      → decode_loop (three_chars (char_of i) (char_of j) (char_of k)) ret (char_of l ∷ s)
        ≡ decode_loop no_char (ret ++ octet_0 i j ∷ octet_1 j k ∷ octet_2 k l ∷ []) s
  unfolding decode_step
  take_fourth i j k l hi hj hk hl =
      decode_loop-letter (three_chars (char_of i) (char_of j) (char_of k)) ret s l hl
      ∙ rw ((letters i hi).0, (letters j hj).0, (letters k hk).0, (letters l hl).0)

four_letters :
    (ret s : Str) (i j k l : ℕ)
    → i < 64
    → j < 64
    → k < 64
    → l < 64
    → decode_loop no_char ret (char_of i ∷ char_of j ∷ char_of k ∷ char_of l ∷ s)
      ≡ decode_loop no_char (ret ++ octet_0 i j ∷ octet_1 j k ∷ octet_2 k l ∷ []) s
four_letters ret s i j k l hi hj hk hl =
    take_first ret _ i hi
    ∙ take_second ret _ i j hj
    ∙ take_third ret _ i j k hk
    ∙ take_fourth ret s i j k l hi hj hk hl

decode-encoded : (s ret : Str) → IsBytes s → decode_loop no_char ret (encoded s) ≡ ret ++ s
unfolding encoded encode_end decode_end
decode-encoded [] ret h = unfold decode_loop in refl
decode-encoded (a ∷ []) ret h =
    let (h0, h1, h2, h3) = sextet_bounds a 0 0 h.0 (omega arith) (omega arith) in
    let (o0, o1, o2) = octets a 0 0 h.0 (omega arith) (omega arith) in
    take_first ret _ _ h0
    ∙ take_second ret _ _ _ h1
    ∙ decode_loop_stop (two_chars _ _) ret (b'=' ∷ [])
    ∙ rw ((letters _ h0).0, (letters _ h1).0, o0)
decode-encoded (a ∷ b ∷ []) ret h =
    let (h0, h1, h2, h3) = sextet_bounds a b 0 h.0 h.1.0 (omega arith) in
    let (o0, o1, o2) = octets a b 0 h.0 h.1.0 (omega arith) in
    take_first ret _ _ h0
    ∙ take_second ret _ _ _ h1
    ∙ take_third ret _ _ _ _ h2
    ∙ decode_loop_stop (three_chars _ _ _) ret []
    ∙ rw ((letters _ h0).0, (letters _ h1).0, (letters _ h2).0, o0, o1)
decode-encoded (a ∷ b ∷ c ∷ s) ret h =
    let (h0, h1, h2, h3) = sextet_bounds a b c h.0 h.1.0 h.1.1.0 in
    let (o0, o1, o2) = octets a b c h.0 h.1.0 h.1.1.0 in
    four_letters ret (encoded s) _ _ _ _ h0 h1 h2 h3
    ∙ ap (λ r. decode_loop no_char r (encoded s)) (rw (o0, o1, o2))
    ∙ decode-encoded s (ret ++ a ∷ b ∷ c ∷ []) h.1.1.1
    ∙ append_assoc ret (a ∷ b ∷ c ∷ []) s

-- Decoding the encoding of any bytes gives the bytes, for every length modulo three.
pub base64_decode-encode :
    (bytes : Str) → IsBytes bytes → base64_decode (base64_encode bytes) ≡ bytes
unfolding base64_decode base64_encode
base64_decode-encode bytes h =
    ap (decode_loop no_char []) (encode_loop-encoded bytes []) ∙ decode-encoded bytes [] h

length-encoded : (s : Str) → length (encoded s) ≡ (length s + 2) / 3 * 4
unfolding encoded encode_end
length-encoded [] = refl
length-encoded (a ∷ []) = refl
length-encoded (a ∷ b ∷ []) = refl
length-encoded (a ∷ b ∷ c ∷ s) = omega (arith, length-encoded s)

-- The encoding of n bytes is as long as the padded groups: four characters for each three bytes
-- begun.
pub length-base64_encode : (bytes : Str) → length (base64_encode bytes) ≡ (length bytes + 2) / 3 * 4
unfolding base64_encode
length-base64_encode bytes = ap length (encode_loop-encoded bytes []) ∙ length-encoded bytes
