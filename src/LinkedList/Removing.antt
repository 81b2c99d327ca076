-- ===== src/LinkedList/Removing.antt =====
-- What `remove` of chromatic_algo/src/chromatic_algo_link.cpp does to a list.
use chromatic_imap_cplus_plu.Prelude.{
  ℕ, zero, suc, ◌≤◌, ◌≡◌, refl, [], ◌∷◌, true, false, Bool-cases, Option, none, some, inl, inr,
  arith, length, if◌then◌else◌,
}
use chromatic_imap_cplus_plu.Prelude.Int.{ℤ, eqb_ℤ}
use chromatic_imap_cplus_plu.LinkedList.{
  node, Nodes, update, SingleLink, Run, done, undefined, unlink_value, and_then, remove,
}
use chromatic_imap_cplus_plu.LinkedList.Chains.{Cells, IsLink}
use chromatic_imap_cplus_plu.LinkedList.Unlinking.{
  erase, Unlinked, consed, unlink-first, unlink-next, unlink-Unlinked,
}

-- A list of one node is emptied whatever its value is. A longer one keeps its first node, and has no
-- result where that is the one looked for or none is.
unfoldable pub remaining : ℤ → Cells → Option Cells
unfolding erase
remaining value [] = some []
remaining value (c ∷ []) = some []
remaining value (c ∷ d ∷ cells) =
    if eqb_ℤ c.1 value
    then none
    else elim (erase value (d ∷ cells)) [ none ↦ none | some rest ↦ some (c ∷ rest) ]

abbrev pub Removed : Run SingleLink → Option Cells → Type 0
Removed r none = r ≡ undefined
Removed r (some rest) = (shorter : SingleLink) × (r ≡ done shorter) × IsLink shorter rest

remove-run :
    (turns : ℕ) (value : ℤ) (l : SingleLink) (p q : ℕ) (w : ℤ)
    → l.head ≡ some p
    → l.nodes p ≡ some (node w (some q))
    → remove turns value l
      ≡ and_then
          (unlink_value turns l.nodes value none p)
          (λ nodes. done (record { nodes = nodes; head = some p }))
unfolding remove
remove-run turns value l p q w e k = ground arith

Removed-consed :
    (nodes : Nodes) (value : ℤ) (c : ℕ × ℤ) (cells : Cells) (r : Run Nodes) (o : Option Cells)
    → Unlinked nodes value c.0 c.1 r cells o
    → Removed (and_then r (λ after. done (record { nodes = after; head = some c.0 }))) (consed c o)
Removed-consed nodes value c cells r none h = rw h
Removed-consed nodes value c cells r (some rest) h =
    (record { nodes = h.0; head = some c.0 }, rw h.1 refl, h.2.0)

remaining-first :
    (value : ℤ) (c d : ℕ × ℤ) (cells : Cells)
    → eqb_ℤ c.1 value ≡ true
    → remaining value (c ∷ d ∷ cells) ≡ none
unfolding remaining
remaining-first value c d cells hit = ground arith

remaining-past :
    (value : ℤ) (c d : ℕ × ℤ) (cells : Cells)
    → eqb_ℤ c.1 value ≡ false
    → remaining value (c ∷ d ∷ cells) ≡ consed c (erase value (d ∷ cells))
unfolding remaining
remaining-past value c d cells miss = ground arith

-- With turns for each node, `remove` leaves what the description says: nothing of a list of at most one
-- node, and otherwise the list without the first node of the value. Where that is the first node, or there
-- is none, the run ends in undefined behaviour.
pub remove-remaining :
    (turns : ℕ) (value : ℤ) (l : SingleLink) (cells : Cells)
    → IsLink l cells
    → length cells ≤ turns
    → Removed (remove turns value l) (remaining value cells)
unfolding remove remaining
remove-remaining turns value l [] h lt = (l, ground arith, h)
remove-remaining turns value l (c ∷ []) h lt =
    (record { nodes = update l.nodes c.0 none; head = none }, ground arith, refl)
remove-remaining zero value l (c ∷ d ∷ cells) h lt = absurd (omega arith)
remove-remaining (suc turns) value l (c ∷ d ∷ cells) h lt =
    let stored : l.nodes c.0 ≡ some (node c.1 (some d.0)) = ground arith in
    rw (remove-run (suc turns) value l c.0 d.0 c.1 h.0 stored)
      (elim (Bool-cases (eqb_ℤ c.1 value)) [
        | inl hit ↦
            rw
              (
                remaining-first value c d cells hit,
                unlink-first turns l.nodes value c.0 c.1 (some d.0) stored hit,
              )
              refl
        | inr miss ↦
            rw
              (
                remaining-past value c d cells miss,
                unlink-next turns l.nodes value none c.0 d.0 c.1 stored miss,
              )
              (Removed-consed l.nodes value c (d ∷ cells) _ (erase value (d ∷ cells)) (
                unlink-Unlinked turns l.nodes value c.0 c.1 d cells stored h.1
                  (refl, h.4.1, h.4.2, h.4.3, h.4.4) (omega arith)))
      ])
