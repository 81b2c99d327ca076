-- ===== src/MessageManip/Intersection.antt =====
-- The loop of std::set_intersection, on vectors that std::sort and std::unique have prepared, as in
-- chromatic_imap/chromatic_imap_message_manip.cpp.
use chromatic_imap_cplus_plu.Prelude.{
  ◌≡◌, ◌↔◌, inl, inr, refl, sym, subst, ap, ◌∙◌, true, false, List, [], ◌∷◌, ◌++◌, arith, All, In,
  Bool-cases,
}
use chromatic_imap_cplus_plu.Prelude.Int.{ℤ, ◌≤ℤ◌, ◌<ℤ◌, ltb_ℤ, eq_of_parts}
use chromatic_imap_cplus_plu.MessageManip.{set_intersection}
use chromatic_imap_cplus_plu.MessageManip.Sorting.{Rising, last, All-below_trans, not_below}

-- The three branches of the loop.
module _ (x y : ℤ) (xs ys : List ℤ) where
  skip_first : ltb_ℤ x y ≡ true → set_intersection (x ∷ xs) (y ∷ ys) ≡ set_intersection xs (y ∷ ys)
  unfolding set_intersection
  skip_first e = rw (e, set_intersection)

  skip_second :
      ltb_ℤ x y ≡ false
      → ltb_ℤ y x ≡ true
      → set_intersection (x ∷ xs) (y ∷ ys) ≡ set_intersection (x ∷ xs) ys
  unfolding set_intersection
  skip_second e f = rw (e, set_intersection) (rw f)

  take_both :
      ltb_ℤ x y ≡ false
      → ltb_ℤ y x ≡ false
      → set_intersection (x ∷ xs) (y ∷ ys) ≡ x ∷ set_intersection xs ys
  unfolding set_intersection
  take_both e f = rw (e, set_intersection) (rw f)

none_left : (ys : List ℤ) → [] ≡ set_intersection [] ys
unfolding set_intersection
none_left ys = refl

-- Ints below all of a list have none in common with it.
low_part : (rest ys : List ℤ) → All (λ t. All (λ y. t <ℤ y) ys) rest → set_intersection rest ys ≡ []
low_part [] ys h = unfold set_intersection in refl
low_part (t ∷ rest) [] h = unfold set_intersection in refl
low_part (t ∷ rest) (y ∷ ys) h =
    skip_first t y rest ys (ground (arith, h.0.0)) ∙ low_part rest (y ∷ ys) h.1

below_rest : (t x : ℤ) (ys : List ℤ) → t ≤ℤ x → All (λ y. x <ℤ y) ys → All (λ y. t <ℤ y) ys
below_rest t x [] h k = tt
below_rest t x (y ∷ ys) h k = (omega (arith, k.0), below_rest t x ys h k.1)

All-low :
    (x : ℤ) (rest ys : List ℤ)
    → All (λ t. t ≤ℤ x) rest
    → All (λ y. x <ℤ y) ys
    → All (λ t. All (λ y. t <ℤ y) ys) rest
All-low x [] ys h k = tt
All-low x (t ∷ rest) ys h k = (below_rest t x ys h.0 k, All-low x rest ys h.1 k)

-- What std::unique leaves behind the front does not change the intersection.
pub drop_rest :
    (x : ℤ) (xs rest ys : List ℤ)
    → Rising ys
    → All (λ t. t ≤ℤ last x xs) rest
    → set_intersection ((x ∷ xs) ++ rest) ys ≡ set_intersection (x ∷ xs) ys
drop_rest x xs rest [] k l = unfold set_intersection in refl
drop_rest x [] rest (y ∷ ys) k l = elim (Bool-cases (ltb_ℤ x y)) [
  | inl e ↦
      let above : All (λ z. x <ℤ z) (y ∷ ys) =
        (ground arith, All-below_trans x y ys (ground arith) k.0) in
      skip_first x y rest ys e
      ∙ low_part rest (y ∷ ys) (All-low x rest (y ∷ ys) l above)
      ∙ sym (skip_first x y [] ys e ∙ sym (none_left (y ∷ ys)))
  | inr e ↦ elim (Bool-cases (ltb_ℤ y x)) [
    | inl f ↦
        skip_second x y rest ys e f ∙ drop_rest x [] rest ys k.1 l ∙ sym (skip_second x y [] ys e f)
    | inr f ↦
        let above : All (λ z. x <ℤ z) ys =
          subst (λ w. All (λ z. w <ℤ z) ys) (eq_of_parts y x (ground arith)) k.0 in
        take_both x y rest ys e f
        ∙ ap (◌∷◌ x) (low_part rest ys (All-low x rest ys l above) ∙ none_left ys)
        ∙ sym (take_both x y [] ys e f)
  ]
]
drop_rest x (x' ∷ xs) rest (y ∷ ys) k l = elim (Bool-cases (ltb_ℤ x y)) [
  | inl e ↦
      skip_first x y ((x' ∷ xs) ++ rest) ys e
      ∙ drop_rest x' xs rest (y ∷ ys) k l
      ∙ sym (skip_first x y (x' ∷ xs) ys e)
  | inr e ↦ elim (Bool-cases (ltb_ℤ y x)) [
    | inl f ↦
        skip_second x y ((x' ∷ xs) ++ rest) ys e f
        ∙ drop_rest x (x' ∷ xs) rest ys k.1 l
        ∙ sym (skip_second x y (x' ∷ xs) ys e f)
    | inr f ↦
        take_both x y ((x' ∷ xs) ++ rest) ys e f
        ∙ ap (◌∷◌ x) (drop_rest x' xs rest ys k.1 l)
        ∙ sym (take_both x y (x' ∷ xs) ys e f)
  ]
]

-- Both vectors rise: the loop's result holds exactly the ints of both, and rises too.
abbrev pub Common : List ℤ → List ℤ → List ℤ → Type 0
Common xs ys zs =
    ((z : ℤ) → In z zs ↔ (In z xs × In z ys))
    × ((w : ℤ) → All (λ x. w <ℤ x) xs → All (λ x. w <ℤ x) zs)
    × Rising zs

Common-first :
    (x y : ℤ) (xs ys zs : List ℤ)
    → x <ℤ y
    → Rising (y ∷ ys)
    → Common xs (y ∷ ys) zs
    → Common (x ∷ xs) (y ∷ ys) zs
Common-first x y xs ys zs e k c = (
  λ z. (
    λ h. (inr ((c.0 z).0 h).0, ((c.0 z).0 h).1),
    λ h. elim h.0 [
      | inl same ↦ absurd (
          not_below x (y ∷ ys) (e, All-below_trans x y ys e k.0)
            (subst (λ w. In w (y ∷ ys)) same h.1))
      | inr m ↦ (c.0 z).1 (m, h.1)
    ],
  ),
  λ w h. c.1 w h.1,
  c.2,
)

Common-second :
    (x y : ℤ) (xs ys zs : List ℤ)
    → y <ℤ x
    → Rising (x ∷ xs)
    → Common (x ∷ xs) ys zs
    → Common (x ∷ xs) (y ∷ ys) zs
Common-second x y xs ys zs e k c = (
  λ z. (
    λ h. (((c.0 z).0 h).0, inr ((c.0 z).0 h).1),
    λ h. elim h.1 [
      | inl same ↦ absurd (
          not_below y (x ∷ xs) (e, All-below_trans y x xs e k.0)
            (subst (λ w. In w (x ∷ xs)) same h.0))
      | inr m ↦ (c.0 z).1 (h.0, m)
    ],
  ),
  c.1,
  c.2,
)

Common-both :
    (x : ℤ) (xs ys zs : List ℤ)
    → Rising (x ∷ xs)
    → Rising (x ∷ ys)
    → Common xs ys zs
    → Common (x ∷ xs) (x ∷ ys) (x ∷ zs)
Common-both x xs ys zs h k c = (
  λ z. (
    λ m. elim m [ inl e ↦ (inl e, inl e) | inr n ↦ (inr ((c.0 z).0 n).0, inr ((c.0 z).0 n).1) ],
    λ m. elim m.0 [
      | inl e ↦ inl e
      | inr a ↦ elim m.1 [ inl e ↦ inl e | inr b ↦ inr ((c.0 z).1 (a, b)) ]
    ],
  ),
  λ w m. (m.0, c.1 w m.1),
  (c.1 x h.0, c.2),
)

pub set_intersection-Common :
    (xs ys : List ℤ) → Rising xs → Rising ys → Common xs ys (set_intersection xs ys)
set_intersection-Common [] ys h k =
    unfold set_intersection in (λ z. (λ m. absurd m, λ m. m.0), λ w m. tt, tt)
set_intersection-Common (x ∷ xs) [] h k =
    unfold set_intersection in (λ z. (λ m. absurd m, λ m. m.1), λ w m. tt, tt)
set_intersection-Common (x ∷ xs) (y ∷ ys) h k =
    let result = λ (zs : List ℤ). Common (x ∷ xs) (y ∷ ys) zs in
    elim (Bool-cases (ltb_ℤ x y)) [
      | inl e ↦
          subst result (sym (skip_first x y xs ys e))
            (Common-first x y xs ys _ (ground arith) k (set_intersection-Common xs (y ∷ ys) h.1 k))
      | inr e ↦ elim (Bool-cases (ltb_ℤ y x)) [
        | inl f ↦
            subst result (sym (skip_second x y xs ys e f)) (
              Common-second x y xs ys _ (ground arith) h
                (set_intersection-Common (x ∷ xs) ys h k.1))
        | inr f ↦
            let same : x ≡ y = eq_of_parts x y (ground arith) in
            subst result (sym (take_both x y xs ys e f)) (
              subst (λ w. Common (x ∷ xs) (w ∷ ys) (x ∷ set_intersection xs ys)) same
                (Common-both x xs ys _ h (subst (λ w. Rising (w ∷ ys)) (sym same) k)
                  (set_intersection-Common xs ys h.1 k.1)))
      ]
    ]
