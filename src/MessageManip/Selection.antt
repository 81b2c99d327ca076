-- ===== src/MessageManip/Selection.antt =====
-- `atoms_intersection` of chromatic_imap/chromatic_imap_message_manip.cpp: the numbers asked for
-- that are there. COPY, FETCH and STORE choose their messages by it.
use chromatic_imap_cplus_plu.Prelude.{
  ℕ, zero, suc, ◌-◌, ◌≡◌, ◌≢◌, ◌↔◌, inl, inr, refl, sym, subst, ap, ◌∙◌, Bool, not, List, [], ◌∷◌,
  ◌++◌, arith, length, keep, replicate, max, All, In, Bool-cases,
}
use chromatic_imap_cplus_plu.Prelude.Int.{ℤ, pos, ◌<ℤ◌, eqb_ℤ, eqb_ℤ_iff}
use chromatic_imap_cplus_plu.MessageManip.{
  sort, unique_front, unique, set_intersection, atoms_intersection,
}
use chromatic_imap_cplus_plu.MessageManip.Sorting.{
  Rising, NoRepeat, In-sort, sort-Sorted, sort-Rising, FrontAndRest, unique-FrontAndRest,
  unique_self,
}
use chromatic_imap_cplus_plu.MessageManip.Intersection.{drop_rest, set_intersection-Common}

-- A strictly rising vector of exactly the ints that are in both.
abbrev Selects : List ℤ → List ℤ → List ℤ → Type 0
Selects xs ys zs = ((z : ℤ) → In z zs ↔ (In z xs × In z ys)) × Rising zs

-- The intersection of a sorted vector after std::unique, whatever that leaves behind the front.
unique-Selects :
    (xs front ys : List ℤ)
    → FrontAndRest xs front
    → Rising ys
    → Selects xs ys (set_intersection (unique xs) ys)
unique-Selects xs [] ys f k =
    let c = set_intersection-Common [] ys tt k in
    subst (λ w. Selects w ys (set_intersection (unique w) ys)) (sym f)
      (subst (λ w. Selects [] ys (set_intersection w ys)) (sym (unique_self [] tt)) (c.0, c.2))
unique-Selects xs (x ∷ front) ys (rises, same, (rest, whole, low)) k =
    let c = set_intersection-Common (x ∷ front) ys rises k in
    let equal : set_intersection (x ∷ front) ys ≡ set_intersection (unique xs) ys =
      sym (ap (λ w. set_intersection w ys) whole ∙ drop_rest x front rest ys k low) in
    subst (λ w. Selects xs ys w) equal
      (
        λ z. (
          λ m. ((same z).0 ((c.0 z).0 m).0, ((c.0 z).0 m).1),
          λ m. (c.0 z).1 ((same z).1 m.0, m.1),
        ),
        c.2,
      )

-- What is written into the target before the zeros are removed.
common : List ℤ → List ℤ → List ℤ
common xs ys = set_intersection (unique (sort xs)) (unique (sort ys))

common-Selects : (xs ys : List ℤ) → NoRepeat ys → Selects xs ys (common xs ys)
unfolding common
common-Selects xs ys h =
    let rises = sort-Rising ys h in
    let s =
      unique-Selects (sort xs) (unique_front (sort xs)) (sort ys)
        (unique-FrontAndRest (sort xs) (sort-Sorted xs)) rises in
    subst (λ w. Selects xs ys (set_intersection (unique (sort xs)) w))
      (sym (unique_self (sort ys) rises))
      (
        λ z. (
          λ m. ((In-sort z xs).0 ((s.0 z).0 m).0, (In-sort z ys).0 ((s.0 z).0 m).1),
          λ m. (s.0 z).1 ((In-sort z xs).1 m.0, (In-sort z ys).1 m.1),
        ),
        s.1,
      )

abbrev not_zero : ℤ → Bool
not_zero z = not (eqb_ℤ z (pos 0))

keep_zeros : (zs : List ℤ) (n : ℕ) → keep not_zero (zs ++ replicate n (pos 0)) ≡ keep not_zero zs
keep_zeros [] zero = refl
keep_zeros [] (suc n) = keep_zeros [] n
keep_zeros (z ∷ zs) n = ground (arith, keep_zeros zs n)

In-keep : (z : ℤ) (zs : List ℤ) → In z (keep not_zero zs) ↔ (In z zs × (z ≢ pos 0))
In-keep z [] = (λ m. absurd m, λ m. m.0)
In-keep z (x ∷ zs) = ground (arith, In-keep z zs, eqb_ℤ_iff x (pos 0))

All-keep : (w : ℤ) (zs : List ℤ) → All (λ z. w <ℤ z) zs → All (λ z. w <ℤ z) (keep not_zero zs)
All-keep w [] h = tt
All-keep w (z ∷ zs) h = elim (Bool-cases (not_zero z)) [
  | inl e ↦ rw e (h.0, All-keep w zs h.1)
  | inr e ↦ rw e (All-keep w zs h.1)
]

keep-Rising : (zs : List ℤ) → Rising zs → Rising (keep not_zero zs)
keep-Rising [] h = tt
keep-Rising (z ∷ zs) h = elim (Bool-cases (not_zero z)) [
  | inl e ↦ rw e (All-keep z zs h.0, keep-Rising zs h.1)
  | inr e ↦ rw e (keep-Rising zs h.1)
]

-- When no message number is listed twice, the numbers selected for any request, one that repeats
-- numbers included, are in strictly rising order and are exactly those that are requested, exist
-- and are not 0.
pub atoms_intersection-selects :
    (requested existing : List ℤ)
    → NoRepeat existing
    → ((z : ℤ)
        → In z (atoms_intersection requested existing)
          ↔ (In z requested × In z existing × (z ≢ pos 0)))
      × Rising (atoms_intersection requested existing)
unfolding atoms_intersection common
atoms_intersection-selects requested existing h =
    let s = common-Selects requested existing h in
    let zs = common requested existing in
    let room = max (length requested) (length existing) - length zs in
    let result : keep not_zero zs ≡ keep not_zero (zs ++ replicate room (pos 0)) =
      sym (keep_zeros zs room) in
    subst (λ w. ((z : ℤ) → In z w ↔ (In z requested × In z existing × (z ≢ pos 0))) × Rising w)
      result
      (
        λ z. (
          λ m.
              let (inside, nonzero) = (In-keep z zs).0 m in
              (((s.0 z).0 inside).0, ((s.0 z).0 inside).1, nonzero),
          λ m. (In-keep z zs).1 ((s.0 z).1 (m.0, m.1), m.2),
        ),
        keep-Rising zs s.1,
      )
