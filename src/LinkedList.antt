-- ===== src/LinkedList.antt =====
-- chromatic_algo/src/chromatic_algo.h and chromatic_algo_link.cpp: the singly linked list
-- `chromatic_single_link`. A pointer is an address or null (`none`), and the heap holds the nodes that
-- have been made and not deleted. What `new` returns is a parameter; it does not throw.
-- Double is about the doubly linked list.
pub mod Chains
pub mod Appending
pub mod Unlinking
pub mod Removing
pub mod Double
use chromatic_imap_cplus_plu.Prelude.{
  ℕ, zero, suc, Bool, true, false, Option, none, some, ◌==◌, if◌then◌else◌,
}
use chromatic_imap_cplus_plu.Prelude.Int.{ℤ, eqb_ℤ}

-- chromatic_node
pub record Node : Type 0 where
  pub value : ℤ
  pub next : Option ℕ

abbrev pub node : ℤ → Option ℕ → Node
node v p = record { value = v; next = p }

abbrev pub Nodes : Type 0
Nodes = ℕ → Option Node

abbrev pub update : Nodes → ℕ → Option Node → Nodes
update nodes p n q = if p == q then n else nodes q

-- chromatic_single_link
pub record SingleLink : Type 0 where
  pub nodes : Nodes
  pub head : Option ℕ

-- How a run ends: with a result, in undefined behaviour (a pointer that is null, not set or dangling
-- is followed), or not within the turns given.
pub data Run (A : Type 0) : Type 0 where
  done : A → Run A
  undefined : Run A
  unfinished : Run A

abbrev pub and_then : {A B : Type 0} → Run A → (A → Run B) → Run B
and_then (done a) f = f a
and_then undefined f = undefined
and_then unfinished f = unfinished

abbrev pub load : Nodes → Option ℕ → Run Node
load nodes none = undefined
load nodes (some p) = elim (nodes p) [ none ↦ undefined | some n ↦ done n ]

-- p->next( q )
abbrev pub set_next : Nodes → Option ℕ → Option ℕ → Run Nodes
set_next nodes none q = undefined
set_next nodes (some p) q = elim (nodes p) [
  | none ↦ undefined
  | some n ↦ done (update nodes p (some (node n.value q)))
]

-- delete p
abbrev pub free : Nodes → Option ℕ → Run Nodes
free nodes none = done nodes
free nodes (some p) = elim (nodes p) [ none ↦ undefined | some n ↦ done (update nodes p none) ]

-- The loop to the last node.
unfoldable pub last_node : ℕ → Nodes → ℕ → Run ℕ
last_node zero nodes temp_node = unfinished
last_node (suc turns) nodes temp_node = elim (nodes temp_node) [
  | none ↦ undefined
  | some n ↦ elim n.next [ none ↦ done temp_node | some q ↦ last_node turns nodes q ]
]

-- The last node is pointed to the new node.
unfoldable pub link_last : ℕ → Nodes → ℕ → ℕ → Run Nodes
unfolding last_node
link_last turns nodes temp_node new_node =
    and_then (last_node turns nodes temp_node) (λ last. set_next nodes (some last) (some new_node))

unfoldable pub append : ℕ → ℕ → ℤ → SingleLink → Run SingleLink
unfolding link_last
append turns new_node value l =
    let nodes = update l.nodes new_node (some (node value none)) in
    elim l.head [
      | none ↦ done (record { nodes = nodes; head = some new_node })
      | some temp_node ↦
          and_then (link_last turns nodes temp_node new_node)
            (λ linked. done (record { nodes = linked; head = l.head }))
    ]

-- The loop from a node on, which is not null, with the pointer before it, which is not set at first.
-- It ends in front of the value, or with null.
unfoldable pub find_node : ℕ → Nodes → ℤ → Option ℕ → ℕ → Run (Option ℕ × Option ℕ)
find_node zero nodes value prev temp_node = unfinished
find_node (suc turns) nodes value prev temp_node = elim (nodes temp_node) [
  | none ↦ undefined
  | some n ↦ elim (eqb_ℤ n.value value) [
    | true ↦ done (prev, some temp_node)
    | false ↦ elim n.next [
      | none ↦ done (some temp_node, none)
      | some q ↦ find_node turns nodes value (some temp_node) q
    ]
  ]
]

-- The pointers are adjusted, and the node is deleted.
unfoldable pub unlink : Nodes → Option ℕ × Option ℕ → Run Nodes
unlink nodes (prev, temp_node) =
    and_then (load nodes temp_node)
      (λ n. and_then (set_next nodes prev n.next) (λ linked. free linked temp_node))

unfoldable pub unlink_value : ℕ → Nodes → ℤ → Option ℕ → ℕ → Run Nodes
unfolding find_node unlink
unlink_value turns nodes value prev temp_node =
    and_then (find_node turns nodes value prev temp_node) (unlink nodes)

unfoldable pub remove : ℕ → ℤ → SingleLink → Run SingleLink
unfolding unlink_value
remove turns value l = elim l.head [
  | none ↦ done l
  | some temp_node ↦ and_then (load l.nodes l.head) (λ n. elim n.next [
    | none ↦ and_then (free l.nodes l.head) (λ freed. done (record { nodes = freed; head = none }))
    | some q ↦
        and_then (unlink_value turns l.nodes value none temp_node)
          (λ nodes. done (record { nodes = nodes; head = l.head }))
  ])
]
