-- ===== src/Base64/Bits.antt =====
-- The bit fields of base64 as arithmetic, and the alphabet, each checked over all its values.
use Prim.Native.Nat.{bit_and}
use chromatic_imap_cplus_plu.Prelude.{
  ℕ, zero, suc, ◌+◌, ◌*◌, ◌/◌, ◌%◌, ◌<◌, ◌≡◌, refl, Bool, true, not, ◌&&◌, arith, ◌==◌, ==_iff,
}
use chromatic_imap_cplus_plu.Base64.{
  is_base64, char_of, index_of, sextet_0, sextet_1, sextet_2, sextet_3, octet_0, octet_1, octet_2,
}

-- A test over every number below a bound.
passes : (ℕ → Bool) → ℕ → Bool
passes test zero = true
passes test (suc top) = passes test top && test top

passes_lem : (test : ℕ → Bool) (top i : ℕ) → passes test top ≡ true → i < top → test i ≡ true
unfolding passes
passes_lem test zero i all l = ground arith
passes_lem test (suc top) i all l = ground (arith, passes_lem test top i)

-- What each mask keeps of a byte.
module _ (x : ℕ) (byte : x < 256) where
  mask_fc : bit_and x 0xfc / 4 ≡ x / 4
  unfolding passes
  mask_fc = (==_iff _ _).0 (passes_lem (λ y. bit_and y 0xfc / 4 == y / 4) 256 x refl byte)

  mask_03 : bit_and x 0x03 ≡ x % 4
  unfolding passes
  mask_03 = (==_iff _ _).0 (passes_lem (λ y. bit_and y 0x03 == y % 4) 256 x refl byte)

  mask_f0 : bit_and x 0xf0 / 16 ≡ x / 16
  unfolding passes
  mask_f0 = (==_iff _ _).0 (passes_lem (λ y. bit_and y 0xf0 / 16 == y / 16) 256 x refl byte)

  mask_0f : bit_and x 0x0f ≡ x % 16
  unfolding passes
  mask_0f = (==_iff _ _).0 (passes_lem (λ y. bit_and y 0x0f == y % 16) 256 x refl byte)

  mask_c0 : bit_and x 0xc0 / 64 ≡ x / 64
  unfolding passes
  mask_c0 = (==_iff _ _).0 (passes_lem (λ y. bit_and y 0xc0 / 64 == y / 64) 256 x refl byte)

  mask_3f : bit_and x 0x3f ≡ x % 64
  unfolding passes
  mask_3f = (==_iff _ _).0 (passes_lem (λ y. bit_and y 0x3f == y % 64) 256 x refl byte)

  mask_30 : bit_and x 0x30 / 16 ≡ x / 16 % 4
  unfolding passes
  mask_30 = (==_iff _ _).0 (passes_lem (λ y. bit_and y 0x30 / 16 == y / 16 % 4) 256 x refl byte)

  mask_3c : bit_and x 0x3c / 4 ≡ x / 4 % 16
  unfolding passes
  mask_3c = (==_iff _ _).0 (passes_lem (λ y. bit_and y 0x3c / 4 == y / 4 % 16) 256 x refl byte)

-- The alphabet: 64 letters, each with its own place, none of them `=`.
abbrev letter_test : ℕ → Bool
letter_test i = index_of (char_of i) == i && not (char_of i == b'=') && is_base64 (char_of i)

pub letters :
    (i : ℕ)
    → i < 64
    → (index_of (char_of i) ≡ i) × ((not (char_of i == b'=') && is_base64 (char_of i)) ≡ true)
unfolding passes index_of char_of is_base64
letters i h = let t : letter_test i ≡ true = passes_lem letter_test 64 i refl h in ground arith

-- The groups of six bits of three bytes.
module _ (a b c : ℕ) (ha : a < 256) (hb : b < 256) (hc : c < 256) where
  sextets :
      (sextet_0 a ≡ a / 4)
      × (sextet_1 a b ≡ a % 4 * 16 + b / 16)
      × (sextet_2 b c ≡ b % 16 * 4 + c / 64)
      × (sextet_3 c ≡ c % 64)
  unfolding sextet_0 sextet_1 sextet_2 sextet_3
  sextets = (
    mask_fc a ha,
    rw (mask_03 a ha, mask_f0 b hb) (omega arith),
    rw (mask_0f b hb, mask_c0 c hc) (omega arith),
    mask_3f c hc,
  )

  pub sextet_bounds :
      (sextet_0 a < 64) × (sextet_1 a b < 64) × (sextet_2 b c < 64) × (sextet_3 c < 64)
  sextet_bounds = omega (arith, sextets)

-- The bytes that four groups of six bits make.
octets_of :
    (p q r s : ℕ)
    → p < 64
    → q < 64
    → r < 64
    → s < 64
    → (octet_0 p q ≡ p * 4 + q / 16)
      × (octet_1 q r ≡ q % 16 * 16 + r / 4)
      × (octet_2 r s ≡ r % 4 * 64 + s)
unfolding octet_0 octet_1 octet_2
octets_of p q r s hp hq hr hs = (
  rw (mask_30 q (omega arith)) (omega arith),
  rw (mask_0f q (omega arith), mask_3c r (omega arith)) (omega arith),
  rw (mask_03 r (omega arith)) (omega arith),
)

module _ (a b c : ℕ) (ha : a < 256) (hb : b < 256) (hc : c < 256) where
  -- The four groups of three bytes give the bytes back.
  pub octets :
      (octet_0 (sextet_0 a) (sextet_1 a b) ≡ a)
      × (octet_1 (sextet_1 a b) (sextet_2 b c) ≡ b)
      × (octet_2 (sextet_2 b c) (sextet_3 c) ≡ c)
  octets =
      let six = sextets a b c ha hb hc in
      let (h0, h1, h2, h3) = sextet_bounds a b c ha hb hc in
      let made = octets_of (sextet_0 a) (sextet_1 a b) (sextet_2 b c) (sextet_3 c) h0 h1 h2 h3 in
      omega (arith, six, made)
