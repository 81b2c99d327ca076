-- ===== src/MessageManip/Sorting.antt =====
-- std::sort and std::unique as `atoms_intersection` of chromatic_imap_message_manip.cpp calls them.
use chromatic_imap_cplus_plu.Prelude.{
  ℕ, zero, suc, ◌+◌, ◌≡◌, ◌≢◌, ◌↔◌, ◌⊎◌, inl, inr, refl, subst, ap, true, false, List, [], ◌∷◌,
  ◌++◌, arith, length, drop, All, In, Bool-cases, append-nil,
}
use chromatic_imap_cplus_plu.Prelude.Int.{
  ℤ, pos_part, neg_part, ◌≤ℤ◌, ◌<ℤ◌, leb_ℤ, eqb_ℤ, eqb_ℤ_iff, eq_of_parts,
}
use chromatic_imap_cplus_plu.MessageManip.{insert, sort, unique_from, unique_front, unique}

-- Strictly rising, so without repetition.
abbrev pub Rising : List ℤ → Type 0
Rising [] = Unit
Rising (x ∷ xs) = All (λ y. x <ℤ y) xs × Rising xs

abbrev pub Sorted : List ℤ → Type 0
Sorted [] = Unit
Sorted (x ∷ xs) = All (λ y. x ≤ℤ y) xs × Sorted xs

abbrev pub NoRepeat : List ℤ → Type 0
NoRepeat [] = Unit
NoRepeat (x ∷ xs) = (In x xs → ⊥) × NoRepeat xs

pub All-below_trans : (x y : ℤ) (zs : List ℤ) → x <ℤ y → All (λ z. y <ℤ z) zs → All (λ z. x <ℤ z) zs
All-below_trans x y [] h k = tt
All-below_trans x y (z ∷ zs) h k = (omega arith, All-below_trans x y zs h k.1)

All-le_trans : (x y : ℤ) (zs : List ℤ) → x ≤ℤ y → All (λ z. y ≤ℤ z) zs → All (λ z. x ≤ℤ z) zs
All-le_trans x y [] h k = tt
All-le_trans x y (z ∷ zs) h k = (omega arith, All-le_trans x y zs h k.1)

pub not_below : (x : ℤ) (zs : List ℤ) → All (λ z. x <ℤ z) zs → In x zs → ⊥
not_below x [] h k = k
not_below x (z ∷ zs) h k = elim k [ inl e ↦ ground arith | inr m ↦ not_below x zs h.1 m ]

-- sort
In-insert : (z x : ℤ) (ys : List ℤ) → In z (insert x ys) ↔ ((z ≡ x) ⊎ In z ys)
unfolding insert
In-insert z x [] = (λ h. h, λ h. h)
In-insert z x (y ∷ ys) = ground (arith, In-insert z x ys)

pub In-sort : (z : ℤ) (xs : List ℤ) → In z (sort xs) ↔ In z xs
unfolding sort
In-sort z [] = (λ h. h, λ h. h)
In-sort z (x ∷ xs) = ground (arith, In-insert z x (sort xs), In-sort z xs)

All-insert : (P : ℤ → Type 0) (x : ℤ) (ys : List ℤ) → P x → All P ys → All P (insert x ys)
unfolding insert
All-insert P x [] h k = (h, tt)
All-insert P x (y ∷ ys) h k = elim (Bool-cases (leb_ℤ x y)) [
  | inl e ↦ rw e (h, k)
  | inr e ↦ rw e (k.0, All-insert P x ys h k.1)
]

insert-Sorted : (x : ℤ) (ys : List ℤ) → Sorted ys → Sorted (insert x ys)
unfolding insert
insert-Sorted x [] h = (tt, tt)
insert-Sorted x (y ∷ ys) h = elim (Bool-cases (leb_ℤ x y)) [
  | inl e ↦ rw e ((ground arith, All-le_trans x y ys (ground arith) h.0), h)
  | inr e ↦ rw e (All-insert (λ z. y ≤ℤ z) x ys (ground arith) h.0, insert-Sorted x ys h.1)
]

pub sort-Sorted : (xs : List ℤ) → Sorted (sort xs)
unfolding sort
sort-Sorted [] = tt
sort-Sorted (x ∷ xs) = insert-Sorted x (sort xs) (sort-Sorted xs)

insert-Rising : (x : ℤ) (ys : List ℤ) → (In x ys → ⊥) → Rising ys → Rising (insert x ys)
unfolding insert
insert-Rising x [] n h = (tt, tt)
insert-Rising x (y ∷ ys) n h =
    let ne : pos_part x + neg_part y ≢ pos_part y + neg_part x = λ e. n (inl (eq_of_parts x y e)) in
    elim (Bool-cases (leb_ℤ x y)) [
      | inl e ↦ rw e ((ground arith, All-below_trans x y ys (ground arith) h.0), h)
      | inr e ↦ rw e (
        All-insert (λ z. y <ℤ z) x ys (ground arith) h.0,
        insert-Rising x ys (λ m. n (inr m)) h.1,
      )
    ]

pub sort-Rising : (xs : List ℤ) → NoRepeat xs → Rising (sort xs)
unfolding sort
sort-Rising [] h = tt
sort-Rising (x ∷ xs) h =
    insert-Rising x (sort xs) (λ m. h.0 ((In-sort x xs).0 m)) (sort-Rising xs h.1)

-- unique
abbrev pub last : ℤ → List ℤ → ℤ
last x [] = x
last x (y ∷ ys) = last y ys

In-unique_from : (z x : ℤ) (ys : List ℤ) → In z (x ∷ unique_from x ys) ↔ In z (x ∷ ys)
unfolding unique_from
In-unique_from z x [] = (λ h. h, λ h. h)
In-unique_from z x (y ∷ ys) =
    ground (arith, In-unique_from z x ys, In-unique_from z y ys, eqb_ℤ_iff x y)

unique_from-above :
    (x y : ℤ) (ys : List ℤ) → Sorted (y ∷ ys) → x <ℤ y → All (λ z. x <ℤ z) (unique_from y ys)
unfolding unique_from
unique_from-above x y [] h k = tt
unique_from-above x y (z ∷ zs) h k = elim (Bool-cases (eqb_ℤ y z)) [
  | inl e ↦ rw e (unique_from-above x y zs (h.0.1, h.1.1) k)
  | inr e ↦
      let below : x <ℤ z = omega (arith, h.0.0) in rw e (below, unique_from-above x z zs h.1 below)
]

unique_from-Rising : (x : ℤ) (ys : List ℤ) → Sorted (x ∷ ys) → Rising (x ∷ unique_from x ys)
unfolding unique_from
unique_from-Rising x [] h = (tt, tt)
unique_from-Rising x (y ∷ ys) h = elim (Bool-cases (eqb_ℤ x y)) [
  | inl e ↦ rw e (unique_from-Rising x ys (h.0.1, h.1.1))
  | inr e ↦
      let below : x <ℤ y = ground (arith, h.0.0) in
      rw e ((below, unique_from-above x y ys h.1 below), unique_from-Rising y ys h.1)
]

unique_from_eq :
    (x y : ℤ) (ys : List ℤ) → eqb_ℤ x y ≡ true → unique_from x ys ≡ unique_from x (y ∷ ys)
unfolding unique_from
unique_from_eq x y ys e = rw e

unique_from_ne :
    (x y : ℤ) (ys : List ℤ) → eqb_ℤ x y ≡ false → y ∷ unique_from y ys ≡ unique_from x (y ∷ ys)
unfolding unique_from
unique_from_ne x y ys e = rw e

unique_from-last :
    (x : ℤ) (ys : List ℤ) → Sorted (x ∷ ys) → All (λ t. t ≤ℤ last x (unique_from x ys)) (x ∷ ys)
unique_from-last x [] h = unfold unique_from in (omega arith, tt)
unique_from-last x (y ∷ ys) h = elim (Bool-cases (eqb_ℤ x y)) [
  | inl e ↦
      let rest = unique_from-last x ys (h.0.1, h.1.1) in
      subst (λ u. All (λ t. t ≤ℤ last x u) (x ∷ y ∷ ys)) (unique_from_eq x y ys e)
        (rest.0, (ground (arith, rest.0), rest.1))
  | inr e ↦
      let rest = unique_from-last y ys h.1 in
      subst (λ u. All (λ t. t ≤ℤ last x u) (x ∷ y ∷ ys)) (unique_from_ne x y ys e)
        (omega (arith, rest.0, h.0.0), rest)
]

All-drop : (P : ℤ → Type 0) (n : ℕ) (xs : List ℤ) → All P xs → All P (drop n xs)
All-drop P zero xs h = h
All-drop P (suc n) [] h = tt
All-drop P (suc n) (x ∷ xs) h = All-drop P n xs h.1

-- The vector after std::unique: a strictly rising front with the same ints, and behind it ints that
-- are no greater than the last of the front.
abbrev pub FrontAndRest : List ℤ → List ℤ → Type 0
FrontAndRest xs [] = xs ≡ []
FrontAndRest xs (x ∷ front) =
    Rising (x ∷ front)
    × ((z : ℤ) → In z (x ∷ front) ↔ In z xs)
    × ((rest : List ℤ) × (unique xs ≡ (x ∷ front) ++ rest) × All (λ t. t ≤ℤ last x front) rest)

pub unique-FrontAndRest : (xs : List ℤ) → Sorted xs → FrontAndRest xs (unique_front xs)
unfolding unique unique_front
unique-FrontAndRest [] h = refl
unique-FrontAndRest (x ∷ xs) h = (
  unique_from-Rising x xs h,
  λ z. In-unique_from z x xs,
  (
    drop (length (x ∷ unique_from x xs)) (x ∷ xs),
    refl,
    All-drop (λ t. t ≤ℤ last x (unique_from x xs)) (length (x ∷ unique_from x xs)) (x ∷ xs)
        (unique_from-last x xs h),
  ),
)

unique_from_self : (x : ℤ) (ys : List ℤ) → Rising (x ∷ ys) → unique_from x ys ≡ ys
unfolding unique_from
unique_from_self x [] h = refl
unique_from_self x (y ∷ ys) h = ground (arith, unique_from_self y ys h.1, eqb_ℤ_iff x y)

drop_all : (xs : List ℤ) → drop (length xs) xs ≡ []
drop_all [] = refl
drop_all (x ∷ xs) = drop_all xs

-- A strictly rising vector is left as it is.
pub unique_self : (xs : List ℤ) → Rising xs → unique xs ≡ xs
unfolding unique unique_front
unique_self [] h = refl
unique_self (x ∷ xs) h = rw (unique_from_self x xs h, drop_all xs) (ap (◌∷◌ x) (append-nil xs))
