-- ===== src/MessageManip/Sequence.antt =====
-- Which numbers a message sequence names, whatever its text.
use chromatic_imap_cplus_plu.Prelude.{
  subst, ◌≤◌, ◌<◌, ℕ, zero, suc, ◌+◌, ◌≡◌, ◌≢◌, ◌↔◌, ◌⊎◌, inl, inr, false, List, [], ◌∷◌, ◌++◌, Any,
  none, some, arith, if◌then◌else◌, In, Bool-cases,
}
use chromatic_imap_cplus_plu.Prelude.Int.{
  ℤ, pos, pos_part, neg_part, ltb_ℤ, leb_ℤ, ◌+ℤ◌, ◌-ℤ◌, ◌≤ℤ◌, ◌<ℤ◌, eqb_ℤ, eqb_ℤ_iff, +ℤ_parts,
  -ℤ_parts, one_sided,
}
use chromatic_imap_cplus_plu.Text.{Str, codes, same, find, substr, substr_len, c_str}
use chromatic_imap_cplus_plu.Text.Decimal.{long_to_int, skip_spaces, read_signed, atoi}
use chromatic_imap_cplus_plu.Tokenizer.{safe_tokenize}
use chromatic_imap_cplus_plu.MessageManip.{
  negsuc, ltb, long_to_int, populate_range, generate_n, process_range, process_atoms, process_all,
  expand_message_sequence,
}

pub In-append : {A : Type 0} (x : A) (xs ys : List A) → In x (xs ++ ys) ↔ (In x xs ⊎ In x ys)
In-append x [] ys = (inr, λ h. elim h [ inl e ↦ absurd e | inr k ↦ k ])
In-append x (y ∷ xs) ys = ground (arith, In-append x xs ys)

In-populate_range : (n : ℕ) (a x : ℤ) → In x (populate_range n a) ↔ ((a ≤ℤ x) × (x <ℤ a +ℤ pos n))
unfolding populate_range
In-populate_range zero a x =
    (λ h. absurd h, λ h. absurd (omega (arith, h.0, h.1, +ℤ_parts a (pos 0))))
In-populate_range (suc n) a x = (
  λ h. elim h [
    | inl e ↦ rw e (omega arith, omega (arith, +ℤ_parts a (pos (suc n))))
    | inr k ↦ widen ((In-populate_range n (a +ℤ pos 1) x).0 k)
  ],
  λ h. elim (Bool-cases (eqb_ℤ x a)) [
    | inl e ↦ inl ((eqb_ℤ_iff x a).0 e)
    | inr e ↦ inr ((In-populate_range n (a +ℤ pos 1) x).1 (narrow h e))
  ],
)
  where
    widen : (a +ℤ pos 1 ≤ℤ x) × (x <ℤ a +ℤ pos 1 +ℤ pos n) → (a ≤ℤ x) × (x <ℤ a +ℤ pos (suc n))
    widen k = (
      omega (arith, k.0, k.1, +ℤ_parts a (pos 1)),
      omega (
        arith,
        k.0,
        k.1,
        +ℤ_parts a (pos 1),
        +ℤ_parts (a +ℤ pos 1) (pos n),
        +ℤ_parts a (pos (suc n)),
      ),
    )

    narrow :
        (a ≤ℤ x) × (x <ℤ a +ℤ pos (suc n))
        → eqb_ℤ x a ≡ false
        → (a +ℤ pos 1 ≤ℤ x) × (x <ℤ a +ℤ pos 1 +ℤ pos n)
    narrow k e =
        let ne : pos_part x + neg_part a ≢ pos_part a + neg_part x = ground arith in
        (
          omega (arith, k.0, k.1, ne, +ℤ_parts a (pos 1)),
          omega (
            arith,
            k.0,
            k.1,
            ne,
            +ℤ_parts a (pos 1),
            +ℤ_parts (a +ℤ pos 1) (pos n),
            +ℤ_parts a (pos (suc n)),
          ),
        )

-- generate_n( .. , right + 1 - left , PopulateRange( left ) ) lists left to right.
pub In-generate_n :
    (left right x : ℤ)
    → In x (generate_n (right +ℤ pos 1 -ℤ left) left) ↔ ((left ≤ℤ x) × (x ≤ℤ right))
unfolding generate_n
In-generate_n left right x =
    let count = right +ℤ pos 1 -ℤ left in
    let inside = In-populate_range (pos_part count) left x in
    (
      λ h. (
        (inside.0 h).0,
        omega (
          arith,
          inside.0 h,
          one_sided count,
          +ℤ_parts left (pos (pos_part count)),
          +ℤ_parts right (pos 1),
          -ℤ_parts (right +ℤ pos 1) left,
        ),
      ),
      λ h. inside.1 (
        h.0,
        omega (
          arith,
          one_sided count,
          +ℤ_parts left (pos (pos_part count)),
          +ℤ_parts right (pos 1),
          -ℤ_parts (right +ℤ pos 1) left,
        ),
      ),
    )

-- An int, of 32 bits.
abbrev pub IsInt : ℤ → Type 0
IsInt z = (pos_part z < 2_147_483_648) × (neg_part z ≤ 2_147_483_648)

long_to_int-IsInt : (z : ℤ) → IsInt (long_to_int z)
unfolding long_to_int
long_to_int-IsInt (pos n) = ground arith
long_to_int-IsInt (negsuc n) = ground arith

pub atoi-IsInt : (s : Str) → IsInt (atoi s)
unfolding atoi
atoi-IsInt s = long_to_int-IsInt (read_signed (skip_spaces s))

pub long_to_int-fits : (z : ℤ) → IsInt z → long_to_int z ≡ z
unfolding long_to_int
long_to_int-fits (pos n) h = ground arith
long_to_int-fits (negsuc n) h = ground arith

long_to_int-wraps :
    (z : ℤ) → 2_147_483_648 ≤ pos_part z → pos_part z ≤ 4_294_967_296 → pos_part (long_to_int z) ≡ 0
unfolding long_to_int
long_to_int-wraps (pos n) h k = ground arith
long_to_int-wraps (negsuc n) h k = absurd (omega arith)

-- The numbers from left to right are fewer than 2 ^ 31, so that an int counts them.
abbrev pub Counted : ℤ → ℤ → Type 0
Counted left right = pos_part right + neg_part left < pos_part left + neg_part right + 2_147_483_647

-- The count has at most one wrap.
abbrev Near : ℤ → ℤ → Type 0
Near left right = pos_part left + neg_part right ≤ pos_part right + neg_part left + 2_147_483_648

generate_n-none : (count left x : ℤ) → pos_part count ≡ 0 → In x (generate_n count left) → ⊥
unfolding generate_n populate_range
generate_n-none count left x e h = subst (λ k. In x (populate_range k left)) e h

In-generate_int :
    (left right x : ℤ)
    → IsInt left
    → IsInt right
    → Near left right
    → In x (generate_n (long_to_int (right +ℤ pos 1 -ℤ left)) left)
      ↔ (Counted left right × (left ≤ℤ x) × (x ≤ℤ right))
In-generate_int left right x l r n =
    let count = right +ℤ pos 1 -ℤ left in
    let sided = one_sided count in
    let sum = +ℤ_parts right (pos 1) in
    let difference = -ℤ_parts (right +ℤ pos 1) left in
    elim (Bool-cases (ltb (pos_part count) 2_147_483_648)) [
      | inl fits ↦
          let same_count : long_to_int count ≡ count =
            long_to_int-fits count (ground arith, omega (arith, sided, sum, difference, n)) in
          let counted : Counted left right = ground (arith, sided, sum, difference) in
          let inside = In-generate_n left right x in
          rw same_count (λ h. (counted, (inside.0 h).0, (inside.0 h).1), λ h. inside.1 (h.1, h.2))
      | inr wraps ↦
          let large : 2_147_483_648 ≤ pos_part count = ground arith in
          let once : pos_part count ≤ 4_294_967_296 =
            omega (arith, sided, sum, difference, l.1, r.0) in
          (
            λ h.
                absurd (
                  generate_n-none (long_to_int count) left x (long_to_int-wraps count large once)
                    h),
            λ h. absurd (omega (arith, sided, sum, difference, large, h.0)),
          )
    ]

abbrev pub least : ℤ → ℤ → ℤ
least r limit = if ltb_ℤ limit r then limit else r

-- What the text of one atom names below a limit: a number, a range "left:right", or an open range
-- "left:*", which names nothing while the limit is unknown (0). A range of 2 ^ 31 numbers or more
-- names none.
abbrev pub InRange : ℤ → Str → Str → ℤ → Type 0
InRange limit left right x =
    let l = atoi (c_str left) in
    let r = atoi (c_str right) in
    if same right (codes "*")
    then (limit ≢ pos 0) × Counted l limit × (l ≤ℤ x) × (x ≤ℤ limit)
    else Counted l (least r limit) × (l ≤ℤ x) × (x ≤ℤ r) × (x ≤ℤ limit)

abbrev pub Names : ℤ → Str → ℤ → Type 0
Names limit atom x = elim (find (codes ":") atom) [
  | none ↦ x ≡ atoi (c_str atom)
  | some idx ↦ InRange limit (substr_len 0 idx atom) (substr (idx + 1) atom) x
]

In-append-generate_int :
    (acc : List ℤ) (left right x : ℤ)
    → IsInt left
    → IsInt right
    → Near left right
    → In x (acc ++ generate_n (long_to_int (right +ℤ pos 1 -ℤ left)) left)
      ↔ (In x acc ⊎ (Counted left right × (left ≤ℤ x) × (x ≤ℤ right)))
In-append-generate_int acc left right x l r n = ground (
  arith,
  In-append x acc (generate_n (long_to_int (right +ℤ pos 1 -ℤ left)) left),
  In-generate_int left right x l r n,
)

In-process_range :
    (left right : Str) (acc : List ℤ) (limit : ℕ) (x : ℤ)
    → limit < 2_147_483_648
    → In x (process_range left right acc (pos limit))
      ↔ (In x acc ⊎ InRange (pos limit) left right x)
unfolding process_range
In-process_range left right acc limit x h =
    let l = atoi (c_str left) in
    let r = atoi (c_str right) in
    let il = atoi-IsInt (c_str left) in
    let ir = atoi-IsInt (c_str right) in
    elim (Bool-cases (same right (codes "*"))) [
      | inl star ↦ rw star (
          ground (
            arith,
            In-append-generate_int acc l (pos limit) x il (h, omega arith) (omega (arith, il.0)),
            eqb_ℤ_iff (pos limit) (pos 0),
          ))
      | inr closed ↦ elim (Bool-cases (ltb_ℤ (pos limit) r)) [
        | inl over ↦
            rw (closed, over)
              (ground (
                arith,
                In-append-generate_int acc l (pos limit) x il (h, omega arith)
                    (omega (arith, il.0)),
              ))
        | inr under ↦
            rw (closed, under)
              (elim (Bool-cases (leb_ℤ l r)) [
                | inl ordered ↦
                    let near : Near l r = ground arith in
                    rw ordered (ground (arith, In-append-generate_int acc l r x il ir near))
                | inr descending ↦ rw descending (ground arith)
              ])
      ]
    ]

-- For every text of an atom and every limit that is an int: `process_atoms` keeps the numbers that are there and
-- adds exactly those that the atom names.
pub In-process_atoms :
    (atom : Str) (acc : List ℤ) (limit : ℕ) (x : ℤ)
    → limit < 2_147_483_648
    → In x (process_atoms atom acc (pos limit)) ↔ (In x acc ⊎ Names (pos limit) atom x)
unfolding process_atoms
In-process_atoms atom acc limit x h =
    elim (find (codes ":") atom)
      as (λ o.
        In x (elim o [
          | none ↦ acc ++ atoi (c_str atom) ∷ []
          | some idx ↦ process_range (substr_len 0 idx atom) (substr (idx + 1) atom) acc (pos limit)
        ])
        ↔ (In x acc ⊎ elim o [
          | none ↦ x ≡ atoi (c_str atom)
          | some idx ↦ InRange (pos limit) (substr_len 0 idx atom) (substr (idx + 1) atom) x
        ])) [
          | none ↦ ground (arith, In-append x acc (atoi (c_str atom) ∷ []))
          | some idx ↦
              In-process_range (substr_len 0 idx atom) (substr (idx + 1) atom) acc limit x h
        ]

In-process_all :
    (atoms : List Str) (acc : List ℤ) (limit : ℕ) (x : ℤ)
    → limit < 2_147_483_648
    → In x (process_all atoms acc (pos limit))
      ↔ (In x acc ⊎ Any (λ atom. Names (pos limit) atom x) atoms)
unfolding process_all
In-process_all [] acc limit x small = (inl, λ h. elim h [ inl k ↦ k | inr k ↦ absurd k ])
In-process_all (atom ∷ atoms) acc limit x small =
    let rest = In-process_all atoms (process_atoms atom acc (pos limit)) limit x small in
    let here = In-process_atoms atom acc limit x small in
    (
      λ h. elim (rest.0 h) [
        | inl k ↦ elim (here.0 k) [ inl old ↦ inl old | inr new ↦ inr (inl new) ]
        | inr k ↦ inr (inr k)
      ],
      λ h. rest.1 (elim h [
        | inl old ↦ inl (here.1 (inl old))
        | inr k ↦ elim k [ inl new ↦ inl (here.1 (inr new)) | inr later ↦ inr later ]
      ]),
    )

-- For every text and every limit that is an int and not negative, a number is in the expansion of a
-- message sequence exactly when some piece of the text between commas names it: as that number, as one
-- between the ends of a range and not above the limit, or as one from the left end of an open range to
-- a known limit. A range that is cut at the limit and has still 2 ^ 31 numbers or more names none.
pub In-expand_message_sequence :
    (sequence : Str) (limit : ℕ) (x : ℤ)
    → limit < 2_147_483_648
    → In x (expand_message_sequence sequence (pos limit))
      ↔ Any (λ atom. Names (pos limit) atom x) (safe_tokenize sequence (codes ","))
unfolding expand_message_sequence
In-expand_message_sequence sequence limit x small =
    let all = In-process_all (safe_tokenize sequence (codes ",")) [] limit x small in
    (λ h. elim (all.0 h) [ inl k ↦ absurd k | inr k ↦ k ], λ h. all.1 (inr h))
