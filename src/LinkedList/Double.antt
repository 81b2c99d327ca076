-- ===== src/LinkedList/Double.antt =====
-- The doubly linked list `chromatic_double_link` of chromatic_algo/src/chromatic_algo_link.cpp, over the
-- nodes `chromatic_node_ex`. What `new` returns is a parameter; it does not throw.
use chromatic_imap_cplus_plu.Prelude.{ℕ, ◌≡◌, ◌≢◌, Option, none, some, ◌==◌, if◌then◌else◌, arith}
use chromatic_imap_cplus_plu.Prelude.Int.{ℤ}

-- chromatic_node_ex, without the member m_ptr_next of its base, which its own hide.
pub record NodeEx : Type 0 where
  pub value : ℤ
  pub ex_previous : Option ℕ
  pub ex_next : Option ℕ

unfoldable pub new_node_ex : ℤ → Option ℕ → Option ℕ → NodeEx
new_node_ex data' ptr_previous ptr_next = record {
  value = data';
  ex_previous = ptr_previous;
  ex_next = ptr_next;
}

abbrev pub NodesEx : Type 0
NodesEx = ℕ → Option NodeEx

-- chromatic_double_link with the heap. Its constructor sets no pointer: what they hold then is a parameter.
pub record DoubleLink : Type 0 where
  pub nodes : NodesEx
  pub front : Option ℕ
  pub back : Option ℕ

unfoldable pub new_double_link : NodesEx → Option ℕ → Option ℕ → DoubleLink
new_double_link nodes unset_front unset_back = record {
  nodes = nodes;
  front = unset_front;
  back = unset_back;
}

unfoldable pub push_front : ℤ → DoubleLink → DoubleLink
push_front data' l = l

-- The node is made at the address `p`, and its pointer is dropped.
unfoldable pub push_back : ℕ → ℤ → DoubleLink → DoubleLink
unfolding new_node_ex
push_back p data' l = record l {
  nodes = λ q. if p == q then some (new_node_ex data' none none) else l.nodes q;
}

-- `push_back` leaves the list as it was, and on the heap, where `p` was free, a node to which no pointer of the
-- list leads, if none led to `p`.
push_back-drops :
    (p : ℕ) (data' : ℤ) (l : DoubleLink)
    → l.front ≢ some p
    → l.back ≢ some p
    → ((push_back p data' l).nodes p ≡ some (new_node_ex data' none none))
      × ((push_back p data' l).front ≢ some p)
      × ((push_back p data' l).back ≢ some p)
      × ((q : ℕ) → p ≢ q → (push_back p data' l).nodes q ≡ l.nodes q)
unfolding push_back
push_back-drops p data' l f b = (ground arith, f, b, λ q h. ground arith)
