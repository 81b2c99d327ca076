-- ===== src/Search/RoundTrip.antt =====
-- The translations between uids and message numbers of chromatic_imap/chromatic_imap_search.cpp.
use chromatic_imap_cplus_plu.Prelude.{
  ℕ, ◌≡◌, ◌≢◌, ◌<◌, ◌^◌, refl, sym, ap, ◌∙◌, List, [], ◌∷◌, map, some, All, Bool-cases, inl, inr,
  arith,
}
use chromatic_imap_cplus_plu.Prelude.Int.{ℤ, pos}
use chromatic_imap_cplus_plu.Text.{Str, same}
use chromatic_imap_cplus_plu.Text.Decimal.{show, digits_value, digits_value-show, long_to_int}
use chromatic_imap_cplus_plu.Manager.Types.{Message, Table, find_entry}
use chromatic_imap_cplus_plu.Manager.Messages.{to_unsigned}
use chromatic_imap_cplus_plu.Manager.Messages.Numbering.{same-eq}
use chromatic_imap_cplus_plu.Search.{
  number_of_uid, uids_to_message_numbers, message_numbers_to_uids,
}

abbrev pub OtherUid : ℕ → Table Message → Type 0
OtherUid uid = All (λ f. to_unsigned f.1.uid ≢ uid)

-- No two messages have the same uid.
abbrev pub Unique : Table Message → Type 0
Unique [] = Unit
Unique (e ∷ es) = OtherUid (to_unsigned e.1.uid) es × Unique es

OtherUid-found :
    (uid : ℕ) (key : Str) (t : Table Message) (msg : Message)
    → OtherUid uid t
    → find_entry key t ≡ some msg
    → to_unsigned msg.uid ≢ uid
unfolding find_entry
OtherUid-found uid key [] msg h e = absurd cc
OtherUid-found uid key (f ∷ t) msg h e = elim (Bool-cases (same key f.0)) [
  | inl hit ↦ ground arith
  | inr miss ↦ OtherUid-found uid key t msg h.1 (ground arith)
]

number-found :
    (key : Str) (t : Table Message) (msg : Message)
    → Unique t
    → find_entry key t ≡ some msg
    → number_of_uid (to_unsigned msg.uid) t ≡ some (digits_value 0 key)
unfolding find_entry number_of_uid
number-found key [] msg h e = absurd cc
number-found key (f ∷ t) msg h e = elim (Bool-cases (same key f.0)) [
  | inl hit ↦ ground (arith, same-eq key f.0 hit)
  | inr miss ↦
      let later : find_entry key t ≡ some msg = ground arith in
      ground (
        arith,
        number-found key t msg h.1 later,
        OtherUid-found (to_unsigned f.1.uid) key t msg h.0 later,
      )
]

int-small : (n : ℕ) → n < 2 ^ 31 → long_to_int (pos n) ≡ pos n
unfolding long_to_int
int-small n h = ground arith

-- A number below 2 ^ 31 that a message has whose uid is below 2 ^ 31 too.
abbrev pub Listed : Table Message → ℕ → Type 0
Listed messages n =
    (n < 2 ^ 31)
    × (uid : ℕ) × (uid < 2 ^ 31)
    × (msg : Message) × (msg.uid ≡ pos uid)
    × (find_entry (show n) messages ≡ some msg)

to_uid :
    (messages : Table Message) (n uid : ℕ) (msg : Message) (v_ints : List ℤ)
    → find_entry (show n) messages ≡ some msg
    → msg.uid ≡ pos uid
    → uid < 2 ^ 31
    → message_numbers_to_uids messages (pos n ∷ v_ints)
      ≡ pos uid ∷ message_numbers_to_uids messages v_ints
unfolding message_numbers_to_uids
to_uid messages n uid msg v_ints e k h =
    rw (e, message_numbers_to_uids) (rw (k, int-small uid h) refl)

to_number :
    (messages : Table Message) (n uid : ℕ) (v_ints : List ℤ)
    → number_of_uid uid messages ≡ some n
    → n < 2 ^ 31
    → uids_to_message_numbers messages (pos uid ∷ v_ints)
      ≡ pos n ∷ uids_to_message_numbers messages v_ints
unfolding uids_to_message_numbers to_unsigned
to_number messages n uid v_ints e h = rw (e, uids_to_message_numbers) (rw (int-small n h) refl)

-- The uids that the numbers of listed messages are translated to are translated back to the same numbers,
-- when no two messages have the same uid, and the numbers and their uids are below 2 ^ 31.
pub uids_to_message_numbers-message_numbers_to_uids :
    (messages : Table Message) (numbers : List ℕ)
    → Unique messages
    → All (Listed messages) numbers
    → uids_to_message_numbers messages (message_numbers_to_uids messages (map pos numbers))
      ≡ map pos numbers
unfolding uids_to_message_numbers message_numbers_to_uids
uids_to_message_numbers-message_numbers_to_uids messages [] u h = refl
uids_to_message_numbers-message_numbers_to_uids messages (n ∷ numbers) u h =
    let (small, uid, fits, msg, has_uid, entry) = h.0 in
    let back : number_of_uid uid messages ≡ some n =
      ap (λ (z : ℤ). number_of_uid (to_unsigned z) messages) (sym has_uid)
      ∙ number-found (show n) messages msg u entry
      ∙ ap some (digits_value-show n) in
    rw
      (
        to_uid messages n uid msg (map pos numbers) entry has_uid fits,
        to_number messages n uid (message_numbers_to_uids messages (map pos numbers)) back small,
      )
      (ap (λ (rest : List ℤ). pos n ∷ rest)
        (uids_to_message_numbers-message_numbers_to_uids messages numbers u h.1))
