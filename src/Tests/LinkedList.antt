-- ===== src/Tests/LinkedList.antt =====
-- Concrete runs of the theorems on the linked list, the body structure and the search.
use chromatic_imap_cplus_plu.Prelude.{
  ◌≡◌, refl, [], ◌∷◌, ◌++◌, map, some, none, arith, ◌==◌, if◌then◌else◌, All,
}
use chromatic_imap_cplus_plu.Prelude.Int.{pos}
use chromatic_imap_cplus_plu.Text.{codes}
use chromatic_imap_cplus_plu.LinkedList.{node, SingleLink, done, undefined, append, remove}
use chromatic_imap_cplus_plu.LinkedList.Chains.{Cells, IsLink}
use chromatic_imap_cplus_plu.LinkedList.Appending.{append-last}
use chromatic_imap_cplus_plu.LinkedList.Removing.{Removed, remaining, remove-remaining}
use chromatic_imap_cplus_plu.Text.Decimal.{show}
use chromatic_imap_cplus_plu.Manager.Types as Types
use chromatic_imap_cplus_plu.Manager.Types.{Table, find_entry, new_message}
use chromatic_imap_cplus_plu.Manager.Messages.{to_unsigned}
use chromatic_imap_cplus_plu.Search.{uids_to_message_numbers, message_numbers_to_uids}
use chromatic_imap_cplus_plu.Search.RoundTrip.{
  Unique, Listed, uids_to_message_numbers-message_numbers_to_uids,
}
use chromatic_imap_cplus_plu.BodyStructure.{mime_traverse}
use chromatic_imap_cplus_plu.BodyStructure.Traversal
use chromatic_imap_cplus_plu.BodyStructure.Traversal.{
  Names, AreNames, NamedPart, named, more, to_mime, in_order, lines, mime_traverse-lines,
}

-- The list 3, 5 at the addresses 10 and 20.
abbrev two : SingleLink
two = record {
  nodes = λ a.
      if a == 10
      then some (node (pos 3) (some 20))
      else if a == 20
      then some (node (pos 5) none)
      else none;
  head = some 10;
}

abbrev two_cells : Cells
two_cells = (10, pos 3) ∷ (20, pos 5) ∷ []

two-IsLink : IsLink two two_cells
two-IsLink = (refl, (ground arith, tt), some 20, refl, (refl, tt, none, refl, refl))

append-last_example :
    (longer : SingleLink) × (append 4 30 (pos 7) two ≡ done longer)
    × IsLink longer (two_cells ++ (30, pos 7) ∷ [])
append-last_example = append-last 4 30 (pos 7) two two_cells two-IsLink refl (omega arith)

remove-remaining_example : Removed (remove 4 (pos 5) two) (remaining (pos 5) two_cells)
remove-remaining_example = remove-remaining 4 (pos 5) two two_cells two-IsLink (omega arith)

five-remaining : remaining (pos 5) two_cells ≡ some ((10, pos 3) ∷ [])
unfolding remaining
five-remaining = refl

-- The first of two nodes cannot be removed.
remove_first : remove 4 (pos 3) two ≡ undefined
unfolding remove
remove_first = refl

abbrev names : Names
names = record {
  main_type = codes "text";
  subtype = codes "plain";
  family = codes "utf";
  variant = codes "8";
}

-- A part in a part.
abbrev nested : NamedPart
nested = named names (more (named names Traversal.done) Traversal.done)

nested-AreNames : All AreNames (in_order nested)
unfolding in_order
nested-AreNames = omega arith

mime_traverse-lines_example : mime_traverse (to_mime nested) ≡ lines (in_order nested)
mime_traverse-lines_example = mime_traverse-lines nested nested-AreNames

-- Two messages, whose uids are not in order.
abbrev listed : Table Types.Message
listed =
    (codes "1", record new_message { uid = pos 40 })
    ∷ (codes "2", record new_message { uid = pos 7 })
    ∷ []

listed-Unique : Unique listed
unfolding to_unsigned
listed-Unique = omega arith

both-Listed : All (Listed listed) (2 ∷ 1 ∷ [])
unfolding find_entry show
both-Listed = (
  (omega arith, 7, omega arith, record new_message { uid = pos 7 }, refl, refl),
  ((omega arith, 40, omega arith, record new_message { uid = pos 40 }, refl, refl), tt),
)

uids_to_message_numbers-message_numbers_to_uids_example :
    uids_to_message_numbers listed (message_numbers_to_uids listed (map pos (2 ∷ 1 ∷ [])))
    ≡ map pos (2 ∷ 1 ∷ [])
uids_to_message_numbers-message_numbers_to_uids_example =
    uids_to_message_numbers-message_numbers_to_uids listed (2 ∷ 1 ∷ []) listed-Unique both-Listed
