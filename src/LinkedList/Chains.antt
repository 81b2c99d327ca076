-- ===== src/LinkedList/Chains.antt =====
-- The chains of nodes behind a list of chromatic_algo/src/chromatic_algo_link.cpp.
use chromatic_imap_cplus_plu.Prelude.{ℕ, ◌≡◌, ◌≢◌, List, [], ◌∷◌, Option, none, some, All, arith}
use chromatic_imap_cplus_plu.Prelude.Int.{ℤ}
use chromatic_imap_cplus_plu.LinkedList.{Node, node, Nodes, update, SingleLink}

-- The addresses of a chain with their values, in order.
abbrev pub Cells : Type 0
Cells = List (ℕ × ℤ)

abbrev pub Outside : ℕ → Cells → Type 0
Outside a = All (λ c. c.0 ≢ a)

-- From a pointer on the nodes are those of the cells, which are all different, and then comes null.
abbrev pub Chain : Nodes → Option ℕ → Cells → Type 0
Chain nodes p [] = p ≡ none
Chain nodes p (c ∷ cells) =
    (p ≡ some c.0)
    × Outside c.0 cells
    × (next : Option ℕ) × (nodes c.0 ≡ some (node c.1 next))
    × Chain nodes next cells

abbrev pub IsLink : SingleLink → Cells → Type 0
IsLink l cells = Chain l.nodes l.head cells

pub Chain-update :
    (nodes : Nodes) (p : Option ℕ) (cells : Cells) (a : ℕ) (n : Option Node)
    → Outside a cells
    → Chain nodes p cells
    → Chain (update nodes a n) p cells
Chain-update nodes p [] a n out h = h
Chain-update nodes p (c ∷ cells) a n out h =
    (h.0, h.1, h.2, ground arith, Chain-update nodes h.2 cells a n out.1 h.4)

-- What a free address holds is not in a chain.
pub Outside-free :
    (nodes : Nodes) (p : Option ℕ) (cells : Cells) (a : ℕ)
    → nodes a ≡ none
    → Chain nodes p cells
    → Outside a cells
Outside-free nodes p [] a e h = tt
Outside-free nodes p (c ∷ cells) a e h = (ground arith, Outside-free nodes h.2 cells a e h.4)
