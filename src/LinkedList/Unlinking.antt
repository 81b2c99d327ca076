-- ===== src/LinkedList/Unlinking.antt =====
-- What the loop of `remove` of chromatic_algo/src/chromatic_algo_link.cpp does to a list.
use chromatic_imap_cplus_plu.Prelude.{
  ℕ, zero, suc, ◌<◌, ◌≡◌, ◌≢◌, ◌∙◌, refl, [], ◌∷◌, true, false, Bool-cases, Option, none, some, inl,
  inr, arith, length, if◌then◌else◌,
}
use chromatic_imap_cplus_plu.Prelude.Int.{ℤ, eqb_ℤ}
use chromatic_imap_cplus_plu.LinkedList.{
  node, Nodes, update, Run, done, undefined, find_node, unlink, unlink_value,
}
use chromatic_imap_cplus_plu.LinkedList.Chains.{Cells, Outside, Chain, Chain-update}

-- The cells without the first one of a value, if there is one.
unfoldable pub erase : ℤ → Cells → Option Cells
erase value [] = none
erase value (c ∷ cells) =
    if eqb_ℤ c.1 value
    then some cells
    else elim (erase value cells) [ none ↦ none | some rest ↦ some (c ∷ rest) ]

module _ (nodes : Nodes) (value : ℤ) (prev : ℕ) (v : ℤ) where
  abbrev pub Kept : Cells → Cells → Nodes → Type 0
  Kept cells rest after =
      Chain after (some prev) ((prev, v) ∷ rest)
      × ((b : ℕ) → Outside b ((prev, v) ∷ cells) → after b ≡ nodes b)

  -- What comes of the loop with the cells that are left for it.
  abbrev pub Unlinked : Run Nodes → Cells → Option Cells → Type 0
  Unlinked r cells none = r ≡ undefined
  Unlinked r cells (some rest) = (after : Nodes) × (r ≡ done after) × Kept cells rest after

unlink-hit :
    (turns : ℕ) (nodes : Nodes) (value : ℤ) (prev p : ℕ) (v w : ℤ) (next after : Option ℕ)
    → nodes prev ≡ some (node v next)
    → nodes p ≡ some (node w after)
    → p ≢ prev
    → eqb_ℤ w value ≡ true
    → unlink_value (suc turns) nodes value (some prev) p
      ≡ done (update (update nodes prev (some (node v after))) p none)
unfolding unlink_value find_node unlink
unlink-hit turns nodes value prev p v w next after e k ne hit = ground arith

pub unlink-next :
    (turns : ℕ) (nodes : Nodes) (value : ℤ) (prev : Option ℕ) (p q : ℕ) (w : ℤ)
    → nodes p ≡ some (node w (some q))
    → eqb_ℤ w value ≡ false
    → unlink_value (suc turns) nodes value prev p ≡ unlink_value turns nodes value (some p) q
unfolding unlink_value find_node
unlink-next turns nodes value prev p q w k miss = ground arith

unlink-miss :
    (turns : ℕ) (nodes : Nodes) (value : ℤ) (prev : Option ℕ) (p : ℕ) (w : ℤ)
    → nodes p ≡ some (node w none)
    → eqb_ℤ w value ≡ false
    → unlink_value (suc turns) nodes value prev p ≡ undefined
unfolding unlink_value find_node unlink
unlink-miss turns nodes value prev p w k miss = ground arith

pub unlink-first :
    (turns : ℕ) (nodes : Nodes) (value : ℤ) (p : ℕ) (w : ℤ) (next : Option ℕ)
    → nodes p ≡ some (node w next)
    → eqb_ℤ w value ≡ true
    → unlink_value (suc turns) nodes value none p ≡ undefined
unfolding unlink_value find_node unlink
unlink-first turns nodes value p w next k hit = ground arith

abbrev pub consed : ℕ × ℤ → Option Cells → Option Cells
consed c none = none
consed c (some rest) = some (c ∷ rest)

-- The addresses of what is left are among those of the chain.
abbrev OutsideAll : ℕ → Option Cells → Type 0
OutsideAll a none = Unit
OutsideAll a (some rest) = Outside a rest

Outside-consed :
    (a : ℕ) (c : ℕ × ℤ) (o : Option Cells) → c.0 ≢ a → OutsideAll a o → OutsideAll a (consed c o)
Outside-consed a c none ne h = h
Outside-consed a c (some rest) ne h = (ne, h)

erase-hit :
    (value : ℤ) (c : ℕ × ℤ) (cells : Cells)
    → eqb_ℤ c.1 value ≡ true
    → erase value (c ∷ cells) ≡ some cells
unfolding erase
erase-hit value c cells hit = ground arith

erase-miss :
    (value : ℤ) (c : ℕ × ℤ) (cells : Cells)
    → eqb_ℤ c.1 value ≡ false
    → erase value (c ∷ cells) ≡ consed c (erase value cells)
unfolding erase
erase-miss value c cells miss = ground arith

erase-last : (value : ℤ) (c : ℕ × ℤ) → eqb_ℤ c.1 value ≡ false → erase value (c ∷ []) ≡ none
unfolding erase
erase-last value c miss = ground arith

Outside-erase :
    (a : ℕ) (value : ℤ) (cells : Cells) → Outside a cells → OutsideAll a (erase value cells)
unfolding erase
Outside-erase a value [] h = tt
Outside-erase a value (c ∷ cells) h = elim (Bool-cases (eqb_ℤ c.1 value)) [
  | inl hit ↦ rw (erase-hit value c cells hit) h.1
  | inr miss ↦
      rw (erase-miss value c cells miss)
        (Outside-consed a c (erase value cells) h.0 (Outside-erase a value cells h.1))
]

Unlinked-consed :
    (nodes : Nodes) (value : ℤ) (prev : ℕ) (v : ℤ) (c : ℕ × ℤ) (cells : Cells) (r : Run Nodes)
    (o : Option Cells)
    → nodes prev ≡ some (node v (some c.0))
    → Outside prev (c ∷ cells)
    → OutsideAll prev o
    → Unlinked nodes value c.0 c.1 r cells o
    → Unlinked nodes value prev v r (c ∷ cells) (consed c o)
Unlinked-consed nodes value prev v c cells r none e out apart h = h
Unlinked-consed nodes value prev v c cells r (some rest) e out apart h = (
  h.0,
  h.1,
  (
    (refl, (out.0, apart), some c.0, h.2.1 prev ((ground arith), out.1) ∙ e, h.2.0),
    λ b o. h.2.1 b o.1,
  ),
)

-- The node in front of which the loop stops is taken out.
unlink-Kept :
    (nodes : Nodes) (value : ℤ) (prev : ℕ) (v : ℤ) (c : ℕ × ℤ) (cells : Cells)
    → Outside prev (c ∷ cells)
    → (h : Chain nodes (some c.0) (c ∷ cells))
    → Kept nodes value prev v
        (c ∷ cells)
        cells
        (update (update nodes prev (some (node v h.2))) c.0 none)
unlink-Kept nodes value prev v c cells out h = (
  (
    refl,
    out.1,
    h.2,
    ground arith,
    Chain-update _ h.2 cells c.0 none h.1 (Chain-update nodes h.2 cells prev _ out.1 h.4),
  ),
  λ b o. ground arith,
)

abbrev pub UnlinksFirst : ℕ → Nodes → ℤ → ℕ → ℤ → ℕ × ℤ → Cells → Type 0
UnlinksFirst turns nodes value prev v c cells =
    Unlinked nodes value prev v (unlink_value turns nodes value (some prev) c.0) (c ∷ cells)
      (erase value (c ∷ cells))

pub unlink-Unlinked :
    (turns : ℕ) (nodes : Nodes) (value : ℤ) (prev : ℕ) (v : ℤ) (c : ℕ × ℤ) (cells : Cells)
    → nodes prev ≡ some (node v (some c.0))
    → Outside prev (c ∷ cells)
    → Chain nodes (some c.0) (c ∷ cells)
    → length cells < turns
    → UnlinksFirst turns nodes value prev v c cells
unlink-Unlinked zero nodes value prev v c cells e out h lt = absurd (omega arith)
unlink-Unlinked (suc turns) nodes value prev v c [] e out h lt =
    elim (Bool-cases (eqb_ℤ c.1 value)) [
      | inl hit ↦ rw (erase-hit value c [] hit) (
        _,
        unlink-hit turns nodes value prev c.0 v c.1 (some c.0) h.2 e h.3 out.0 hit,
        unlink-Kept nodes value prev v c [] out h,
      )
      | inr miss ↦
          rw (erase-last value c miss)
            (unlink-miss turns nodes value (some prev) c.0 c.1 (rw (← h.4) h.3) miss)
    ]
unlink-Unlinked (suc turns) nodes value prev v c (d ∷ cells) e out h lt =
    elim (Bool-cases (eqb_ℤ c.1 value)) [
      | inl hit ↦ rw (erase-hit value c (d ∷ cells) hit) (
        _,
        unlink-hit turns nodes value prev c.0 v c.1 (some c.0) h.2 e h.3 out.0 hit,
        unlink-Kept nodes value prev v c (d ∷ cells) out h,
      )
      | inr miss ↦
          let stored : nodes c.0 ≡ some (node c.1 (some d.0)) = ground arith in
          let rest =
            unlink-Unlinked turns nodes value c.0 c.1 d cells stored h.1
              (refl, h.4.1, h.4.2, h.4.3, h.4.4) (omega arith) in
          rw
            (
              erase-miss value c (d ∷ cells) miss,
              unlink-next turns nodes value (some prev) c.0 d.0 c.1 stored miss,
            )
            (Unlinked-consed nodes value prev v c (d ∷ cells) _ (erase value (d ∷ cells)) e out
              (Outside-erase prev value (d ∷ cells) out.1) rest)
    ]
