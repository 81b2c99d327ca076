-- ===== src/LinkedList/Appending.antt =====
-- What `append` of chromatic_algo/src/chromatic_algo_link.cpp does to a list.
use chromatic_imap_cplus_plu.Prelude.{
  ℕ, zero, suc, ◌<◌, ◌≤◌, ◌≡◌, ◌≢◌, ◌∙◌, refl, [], ◌∷◌, ◌++◌, Option, none, some, arith, length,
}
use chromatic_imap_cplus_plu.Prelude.Int.{ℤ}
use chromatic_imap_cplus_plu.LinkedList.{
  node, Nodes, update, SingleLink, done, last_node, link_last, append,
}
use chromatic_imap_cplus_plu.LinkedList.Chains.{
  Cells, Outside, Chain, IsLink, Chain-update, Outside-free,
}

Outside-last :
    (a : ℕ) (cells : Cells) (new_node : ℕ) (value : ℤ)
    → Outside a cells
    → new_node ≢ a
    → Outside a (cells ++ (new_node, value) ∷ [])
Outside-last a [] new_node value h ne = (ne, tt)
Outside-last a (c ∷ cells) new_node value h ne = (h.0, Outside-last a cells new_node value h.1 ne)

-- The new node is linked behind the chain, and nothing outside of the chain changes.
abbrev Linked : ℕ → Nodes → ℕ × ℤ → Cells → ℕ → ℤ → Type 0
Linked turns nodes c cells new_node value =
    (linked : Nodes) × (link_last turns nodes c.0 new_node ≡ done linked)
    × Chain linked (some c.0) (c ∷ cells ++ (new_node, value) ∷ [])
    × ((b : ℕ) → Outside b (c ∷ cells) → linked b ≡ nodes b)

link_last-next :
    (turns : ℕ) (nodes : Nodes) (p q : ℕ) (v : ℤ) (next : Option ℕ) (new_node : ℕ)
    → nodes p ≡ some (node v next)
    → next ≡ some q
    → link_last (suc turns) nodes p new_node ≡ link_last turns nodes q new_node
unfolding link_last last_node
link_last-next turns nodes p q v next new_node e k = ground arith

append-linked :
    (turns new_node p : ℕ) (value : ℤ) (l : SingleLink) (linked : Nodes)
    → l.head ≡ some p
    → link_last turns (update l.nodes new_node (some (node value none))) p new_node ≡ done linked
    → append turns new_node value l ≡ done (record { nodes = linked; head = some p })
unfolding append
append-linked turns new_node p value l linked e k = ground (arith, k)

link_last-Linked :
    (turns : ℕ) (nodes : Nodes) (c : ℕ × ℤ) (cells : Cells) (new_node : ℕ) (value : ℤ)
    → Chain nodes (some c.0) (c ∷ cells)
    → nodes new_node ≡ some (node value none)
    → Outside new_node (c ∷ cells)
    → length cells < turns
    → Linked turns nodes c cells new_node value
unfolding link_last last_node
link_last-Linked zero nodes c cells new_node value h e out lt = absurd (omega arith)
link_last-Linked (suc turns) nodes c [] new_node value h e out lt = (
  update nodes c.0 (some (node c.1 (some new_node))),
  ground arith,
  (refl, (ground arith, tt), some new_node, ground arith, (refl, tt, none, ground arith, refl)),
  ground arith,
)
link_last-Linked (suc turns) nodes c (d ∷ cells) new_node value h e out lt =
    let rest =
      link_last-Linked turns nodes d cells new_node value (refl, h.4.1, h.4.2, h.4.3, h.4.4) e out.1
        (omega arith) in
    (
      rest.0,
      link_last-next turns nodes c.0 d.0 c.1 h.2 new_node h.3 h.4.0 ∙ rest.1,
      (
        refl,
        Outside-last c.0 (d ∷ cells) new_node value h.1 (ground arith),
        some d.0,
        ground (arith, rest.3 c.0),
        rest.2,
      ),
      λ b o. rest.3 b o.1,
    )

-- With turns for each node, `append` of a new node at a free address gives the list with its value last.
pub append-last :
    (turns new_node : ℕ) (value : ℤ) (l : SingleLink) (cells : Cells)
    → IsLink l cells
    → l.nodes new_node ≡ none
    → length cells ≤ turns
    → (longer : SingleLink) × (append turns new_node value l ≡ done longer)
      × IsLink longer (cells ++ (new_node, value) ∷ [])
unfolding append
append-last turns new_node value l [] h e lt = (
  record { nodes = update l.nodes new_node (some (node value none)); head = some new_node },
  ground arith,
  (refl, tt, none, ground arith, refl),
)
append-last turns new_node value l (c ∷ cells) h e lt =
    let nodes = update l.nodes new_node (some (node value none)) in
    let out = Outside-free l.nodes l.head (c ∷ cells) new_node e h in
    let kept = Chain-update l.nodes l.head (c ∷ cells) new_node (some (node value none)) out h in
    let linked =
      link_last-Linked turns nodes c cells new_node value (refl, kept.1, kept.2, kept.3, kept.4)
        (ground arith) out (omega arith) in
    (
      record { nodes = linked.0; head = some c.0 },
      append-linked turns new_node c.0 value l linked.0 h.0 linked.1,
      linked.2,
    )
