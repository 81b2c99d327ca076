-- ===== src/Manager/Commands/Messages/Replay.antt =====
-- EXPUNGE of chromatic_imap/chromatic_imap_mgr.cpp as a client reads it: a line "* n expunged" removes
-- the message that is the n-th at that time.
use chromatic_imap_cplus_plu.Prelude.{
  subst, ℕ, zero, suc, ◌+◌, ◌-◌, ◌≤◌, ◌<◌, ◌≡◌, refl, sym, ap, ◌∙◌, inl, inr, ◌↔◌, Bool-cases, ◌==◌,
  Bool, true, false, ◌||◌, List, [], ◌∷◌, ◌++◌, append_assoc, arith, length, length-append, All, In,
  if◌then◌else◌,
}
use chromatic_imap_cplus_plu.Prelude.Int.{eqb_ℤ_iff, ℤ, pos, negsuc, eqb_ℤ, ◌≤ℤ◌, ◌<ℤ◌}
use chromatic_imap_cplus_plu.MessageManip.{sort}
use chromatic_imap_cplus_plu.MessageManip.Sorting.{
  All-below_trans, Rising, NoRepeat, In-sort, sort-Rising,
}
use chromatic_imap_cplus_plu.Manager.Messages.{to_unsigned}
use chromatic_imap_cplus_plu.Manager.Commands.Messages.{expunged_numbers, unsigned_minus}

module _ {A : Type 0} where
  abbrev pub remove_nth : ℕ → List A → List A
  remove_nth n [] = []
  remove_nth zero (x ∷ xs) = x ∷ xs
  remove_nth (suc zero) (x ∷ xs) = xs
  remove_nth (suc (suc n)) (x ∷ xs) = x ∷ remove_nth (suc n) xs

  -- The client: it removes the messages in the order of the lines.
  abbrev pub replay : List ℕ → List A → List A
  replay [] xs = xs
  replay (n ∷ ns) xs = replay ns (remove_nth n xs)

abbrev pub has : ℤ → List ℤ → Bool
has z [] = false
has z (y ∷ v) = eqb_ℤ z y || has z v

-- The messages that are left where those at the numbers of `v` go, the first having the number `i`.
abbrev pub spared : {A : Type 0} → List ℤ → ℕ → List A → List A
spared v i [] = []
spared v i (x ∷ xs) = let rest = spared v (suc i) xs in if has (pos i) v then rest else x ∷ rest

abbrev pub Between : ℕ → ℕ → List ℤ → Type 0
Between i j v = All (λ z. (pos i ≤ℤ z) × (z <ℤ pos j)) v

remove_nth-append :
    {A : Type 0} (n : ℕ) (kept : List A) (x : A) (rest : List A)
    → n ≡ suc (length kept)
    → remove_nth n (kept ++ x ∷ rest) ≡ kept ++ rest
remove_nth-append zero kept x rest e = absurd (omega arith)
remove_nth-append (suc zero) [] x rest e = refl
remove_nth-append (suc zero) (y ∷ kept) x rest e = absurd (omega arith)
remove_nth-append (suc (suc n)) [] x rest e = absurd (omega arith)
remove_nth-append (suc (suc n)) (y ∷ kept) x rest e =
    ap (◌∷◌ y) (remove_nth-append (suc n) kept x rest (omega arith))

spared-nil : {A : Type 0} (i : ℕ) (xs : List A) → spared [] i xs ≡ xs
spared-nil i [] = refl
spared-nil i (x ∷ xs) = ap (◌∷◌ x) (spared-nil (suc i) xs)

-- A number below the first counts for nothing.
spared-below :
    {A : Type 0} (n i : ℕ) (v : List ℤ) (xs : List A)
    → n < i
    → spared (pos n ∷ v) i xs ≡ spared v i xs
spared-below n i v [] h = refl
spared-below n i v (x ∷ xs) h = rw (spared-below n (suc i) v xs (omega arith)) ground arith

has-above : (i : ℕ) (v : List ℤ) → All (λ z. pos i <ℤ z) v → has (pos i) v ≡ false
has-above i [] h = refl
has-above i (z ∷ v) h = rw (has-above i v h.1) ground arith

unsigned_minus_lem :
    (n dw : ℕ) → dw ≤ n → n < 9_223_372_036_854_775_808 → unsigned_minus (pos n) dw ≡ n - dw
unfolding unsigned_minus to_unsigned
unsigned_minus_lem n dw h k = omega arith

abbrev pub limit : ℕ
limit = 9_223_372_036_854_775_808

above-Between :
    (n i j k : ℕ) (v : List ℤ)
    → j ≡ k
    → All (λ z. pos n <ℤ z) v
    → Between i j v
    → Between (suc n) k v
above-Between n i j k [] e h b = tt
above-Between n i j k (z ∷ v) e h b =
    ((omega arith, omega arith), above-Between n i j k v e h.1 b.1)

spared-here :
    {A : Type 0} (i n : ℕ) (v : List ℤ) (x : A) (xs : List A)
    → i ≡ n
    → spared (pos n ∷ v) i (x ∷ xs) ≡ spared v (suc n) xs
spared-here i n v x xs e =
    subst (λ k. spared (pos n ∷ v) k (x ∷ xs) ≡ spared v (suc n) xs) (sym e)
      (rw (spared-below n (suc n) v xs (omega arith)) ground arith)

spared-above :
    {A : Type 0} (i : ℕ) (v : List ℤ) (x : A) (xs : List A)
    → All (λ z. pos i <ℤ z) v
    → spared v i (x ∷ xs) ≡ x ∷ spared v (suc i) xs
spared-above i v x xs h = rw (has-above i v h) refl

snoc-append :
    {A : Type 0} (kept : List A) (x : A) (rest : List A)
    → (kept ++ x ∷ []) ++ rest ≡ kept ++ x ∷ rest
snoc-append kept x rest = append_assoc kept (x ∷ []) rest

above-All :
    (i n : ℕ) (v : List ℤ) → i < n → All (λ z. pos n <ℤ z) v → All (λ z. pos i <ℤ z) (pos n ∷ v)
above-All i n v h k = (omega arith, All-below_trans (pos i) (pos n) v (omega arith) k)

-- The loop, when `dw` messages have gone and `kept` are those before the next one.
replay-loop :
    {A : Type 0} (rest kept : List A) (v : List ℤ) (dw i : ℕ)
    → Rising v
    → Between i (i + length rest) v
    → length kept + dw + 1 ≡ i
    → i + length rest < limit
    → replay (expunged_numbers dw v) (kept ++ rest) ≡ kept ++ spared v i rest
unfolding expunged_numbers
replay-loop [] kept [] dw i r b e l = refl
replay-loop [] kept (pos n ∷ v) dw i r b e l = absurd (omega arith)
replay-loop [] kept (negsuc n ∷ v) dw i r b e l = absurd (omega arith)
replay-loop (x ∷ rest) kept [] dw i r b e l = ap (λ t. kept ++ t) (sym (spared-nil i (x ∷ rest)))
replay-loop (x ∷ rest) kept (negsuc n ∷ v) dw i r b e l = absurd (omega arith)
replay-loop (x ∷ rest) kept (pos n ∷ v) dw i r b e l = elim (Bool-cases (i == n)) [
  | inl same_number ↦
      let here : i ≡ n = ground arith in
      rw
        (
          unsigned_minus_lem n dw (omega arith) (omega arith),
          remove_nth-append (n - dw) kept x rest (omega arith),
        )
        (replay-loop rest kept v (suc dw) (suc n) r.1
            (above-Between n i (i + length (x ∷ rest)) (suc n + length rest) v (omega arith) r.0
              b.1)
            (omega arith) (omega arith)
          ∙ ap (λ t. kept ++ t) (sym (spared-here i n v x rest here)))
  | inr other ↦
      let above : i < n = ground arith in
      ap (replay (expunged_numbers dw (pos n ∷ v))) (sym (snoc-append kept x rest))
      ∙ replay-loop rest (kept ++ x ∷ []) (pos n ∷ v) dw (suc i) r
          (above-Between i i (i + length (x ∷ rest)) (suc i + length rest) (pos n ∷ v) (omega arith)
            (above-All i n v above r.0) b)
          (omega (arith, length-append kept (x ∷ []))) (omega arith)
      ∙ snoc-append kept x (spared (pos n ∷ v) (suc i) rest)
      ∙ ap (λ t. kept ++ t) (sym (spared-above i (pos n ∷ v) x rest (above-All i n v above r.0)))
]

has-In : (z : ℤ) (v : List ℤ) → (has z v ≡ true) ↔ In z v
has-In z [] = ground arith
has-In z (y ∷ v) = ground (arith, has-In z v, eqb_ℤ_iff z y)

has-sort : (z : ℤ) (v : List ℤ) → has z (sort v) ≡ has z v
has-sort z v = ground (arith, has-In z v, has-In z (sort v), In-sort z v)

spared-sort : {A : Type 0} (v : List ℤ) (i : ℕ) (xs : List A) → spared (sort v) i xs ≡ spared v i xs
spared-sort v i [] = refl
spared-sort v i (x ∷ xs) = rw (has-sort (pos i) v, spared-sort v (suc i) xs) refl

Between-In :
    (i j : ℕ) (v : List ℤ) → ((z : ℤ) → In z v → (pos i ≤ℤ z) × (z <ℤ pos j)) → Between i j v
Between-In i j [] f = tt
Between-In i j (z ∷ v) f = (f z (inl refl), Between-In i j v (λ y h. f y (inr h)))

In-Between : (i j : ℕ) (z : ℤ) (v : List ℤ) → Between i j v → In z v → (pos i ≤ℤ z) × (z <ℤ pos j)
In-Between i j z [] b h = elim h [ ]
In-Between i j z (y ∷ v) b h = elim h [
  | inl e ↦ subst (λ t. (pos i ≤ℤ t) × (t <ℤ pos j)) (sym e) b.0
  | inr k ↦ In-Between i j z v b.1 k
]

Between-sort : (i j : ℕ) (v : List ℤ) → Between i j v → Between i j (sort v)
Between-sort i j v b = Between-In i j (sort v) (λ z h. In-Between i j z v b ((In-sort z v).0 h))

-- The numbers printed for `v` remove from any list just the messages at those numbers.
pub replay-expunged :
    {A : Type 0} (v : List ℤ) (xs : List A)
    → NoRepeat v
    → Between 1 (1 + length xs) v
    → 1 + length xs < limit
    → replay (expunged_numbers 0 (sort v)) xs ≡ spared v 1 xs
replay-expunged v xs h b l =
    replay-loop xs [] (sort v) 0 1 (sort-Rising v h) (Between-sort 1 (1 + length xs) v b) refl l
    ∙ spared-sort v 1 xs
