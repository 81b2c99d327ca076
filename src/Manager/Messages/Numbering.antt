-- ===== src/Manager/Messages/Numbering.antt =====
-- How `fill_message_list_by_db` of chromatic_imap/chromatic_imap_mgr.cpp numbers the messages.
use chromatic_imap_cplus_plu.Prelude.{
  subst, ℕ, zero, suc, ◌+◌, ◌≤◌, ◌<◌, ◌≡◌, refl, sym, ap, ◌∙◌, inl, inr, Bool-cases, true, false,
  List, [], ◌∷◌, none, some, length, get_elem?, arith,
}
use chromatic_imap_cplus_plu.Text.{Str, same}
use chromatic_imap_cplus_plu.Text.Decimal.{show, digits_value, digits_value-show}
use chromatic_imap_cplus_plu.Manager.Types.{
  Answer, World, Manager, Message, Table, insert_entry, find_entry, str_lt, rows,
}
use chromatic_imap_cplus_plu.Manager.Database.{last_string, run}
use chromatic_imap_cplus_plu.Manager.Messages.{
  c_str, text, codes, server_command, list_command, lcase, next_max_uid, fill_rows,
  fill_message_list_by_db, message_of,
}

same_refl : (s : Str) → same s s ≡ true
same_refl [] = refl
same_refl (c ∷ s) = ground (arith, same_refl s)

pub same-eq : (s t : Str) → same s t ≡ true → s ≡ t
same-eq [] [] h = refl
same-eq [] (d ∷ t) h = ground arith
same-eq (c ∷ s) [] h = ground arith
same-eq (c ∷ s) (d ∷ t) h = ground (arith, same-eq s t)

show-injective : (i j : ℕ) → show i ≡ show j → i ≡ j
show-injective i j e = sym (digits_value-show i) ∙ ap (digits_value 0) e ∙ digits_value-show j

same-show : (i j : ℕ) → i < j → same (show i) (show j) ≡ false
same-show i j h = elim (Bool-cases (same (show i) (show j))) [
  | inl e ↦
      let equal : i ≡ j = show-injective i j (same-eq (show i) (show j) e) in absurd (omega arith)
  | inr e ↦ e
]

same-show_above : (i j : ℕ) → i < j → same (show j) (show i) ≡ false
same-show_above i j h = elim (Bool-cases (same (show j) (show i))) [
  | inl e ↦
      let equal : j ≡ i = show-injective j i (same-eq (show j) (show i) e) in absurd (omega arith)
  | inr e ↦ e
]

module _ {A : Type 0} where
  find-insert_same :
      (key : Str) (a : A) (t : Table A)
      → find_entry key t ≡ none
      → find_entry key (insert_entry key a t) ≡ some a
  unfolding find_entry insert_entry
  find-insert_same key a [] h = rw (same_refl key) refl
  find-insert_same key a (e ∷ t) h = ground (arith, same_refl key, find-insert_same key a t)

  find-insert_other :
      (key other : Str) (a : A) (t : Table A)
      → same key other ≡ false
      → find_entry key (insert_entry other a t) ≡ find_entry key t
  unfolding find_entry insert_entry
  find-insert_other key other a [] h = rw h refl
  find-insert_other key other a (e ∷ t) h = elim (Bool-cases (same other e.0)) [
    | inl k ↦ rw k refl
    | inr k ↦ elim (Bool-cases (str_lt other e.0)) [
      | inl l ↦ rw (k, l, h) refl
      | inr l ↦ rw (k, l, find-insert_other key other a t h) refl
    ]
  ]

  length-insert :
      (key : Str) (a : A) (t : Table A)
      → find_entry key t ≡ none
      → length (insert_entry key a t) ≡ suc (length t)
  unfolding find_entry insert_entry
  length-insert key a [] h = refl
  length-insert key a (e ∷ t) h = ground (arith, length-insert key a t)

module _ (w : World) where
  open w use {Store, Row}

  abbrev filled : Str → ℕ → Row → Manager Store → Manager Store
  filled server idx row m = record m {
    messages = insert_entry (show idx) (message_of w server row) m.messages;
    max_uid = next_max_uid w (message_of w server row).uid m.max_uid;
  }

  -- The messages filled in later change nothing of an earlier number.
  fill_rows-earlier :
      (server : Str) (j idx : ℕ) (listed : List Row) (m : Manager Store)
      → j < idx
      → find_entry (show j) (fill_rows w server idx listed m).messages
        ≡ find_entry (show j) m.messages
  unfolding fill_rows
  fill_rows-earlier server j idx [] m h = refl
  fill_rows-earlier server j idx (row ∷ rest) m h =
      fill_rows-earlier server j (suc idx) rest (filled server idx row m) (omega arith)
      ∙ find-insert_other (show j) (show idx) (message_of w server row) m.messages
          (same-show j idx h)

  -- The names from `idx` on are free.
  abbrev FreeFrom : ℕ → Table Message → Type 0
  FreeFrom idx t = (j : ℕ) → idx ≤ j → find_entry (show j) t ≡ none

  FreeFrom-insert :
      (idx : ℕ) (msg : Message) (t : Table Message)
      → FreeFrom idx t
      → FreeFrom (suc idx) (insert_entry (show idx) msg t)
  FreeFrom-insert idx msg t f j h =
      find-insert_other (show j) (show idx) msg t (same-show_above idx j (omega arith))
      ∙ f j (omega arith)

  fill_rows-at :
      (server : Str) (j k idx : ℕ) (listed : List Row) (row : Row) (m : Manager Store)
      → j ≡ idx + k
      → FreeFrom idx m.messages
      → get_elem? listed k ≡ some row
      → find_entry (show j) (fill_rows w server idx listed m).messages
        ≡ some (message_of w server row)
  unfolding fill_rows
  fill_rows-at server j k idx [] row m h f e = absurd cc
  fill_rows-at server j zero idx (r ∷ rest) row m h f e =
      let here : j ≡ idx = omega arith in
      let same_row : r ≡ row = cc in
      fill_rows-earlier server j (suc idx) rest (filled server idx r m) (omega arith)
      ∙ subst
          (λ i.
            find_entry (show j) (insert_entry (show i) (message_of w server r) m.messages)
            ≡ some (message_of w server row))
          here
          (find-insert_same (show j) (message_of w server r) m.messages (f j (omega arith))
            ∙ ap (λ x. some (message_of w server x)) same_row)
  fill_rows-at server j (suc k) idx (r ∷ rest) row m h f e =
      fill_rows-at server j k (suc idx) rest row (filled server idx r m) (omega arith)
        (FreeFrom-insert idx (message_of w server r) m.messages f) e

  length-fill_rows :
      (server : Str) (idx : ℕ) (listed : List Row) (m : Manager Store)
      → FreeFrom idx m.messages
      → length (fill_rows w server idx listed m).messages ≡ length m.messages + length listed
  unfolding fill_rows
  length-fill_rows server idx [] m f = omega arith
  length-fill_rows server idx (row ∷ rest) m f = omega (
    arith,
    length-fill_rows server (suc idx) rest (filled server idx row m)
        (FreeFrom-insert idx (message_of w server row) m.messages f),
    length-insert (show idx) (message_of w server row) m.messages (f idx (omega arith)),
  )

  abbrev server_row : Manager Store → Answer Row × Manager Store
  server_row m = run w server_command (text (c_str m.user) ∷ []) (record m { messages = [] })

  abbrev list_row : Str → Manager Store → Answer Row × Manager Store
  list_row folder m = run w list_command (text (c_str folder) ∷ []) (server_row m).1

  fill_message_list_by_db-rows :
      (folder : Str) (m : Manager Store) (found listed : List Row)
      → (server_row m).0 ≡ rows found
      → (list_row folder m).0 ≡ rows listed
      → fill_message_list_by_db w folder m
        ≡ fill_rows w
            (lcase (last_string w (codes "server") [] found))
            1
            listed
            (list_row folder m).1
  unfolding fill_message_list_by_db
  fill_message_list_by_db-rows folder m found listed e h =
      rw (e, fill_message_list_by_db) (rw (h, fill_message_list_by_db) refl)

  -- Where the database answers both queries, the list is that of the rows in their order: the k-th
  -- row, counted from 0, is the message of the number k + 1, and there are no other messages.
  pub fill_message_list_by_db-numbering :
      (folder : Str) (m : Manager Store) (found listed : List Row)
      → (server_row m).0 ≡ rows found
      → (list_row folder m).0 ≡ rows listed
      → (length (fill_message_list_by_db w folder m).messages ≡ length listed)
        × ((k : ℕ) (row : Row)
            → get_elem? listed k ≡ some row
            → find_entry (show (suc k)) (fill_message_list_by_db w folder m).messages
              ≡ some (message_of w (lcase (last_string w (codes "server") [] found)) row))
  unfolding run find_entry
  fill_message_list_by_db-numbering folder m found listed e h =
      let server = lcase (last_string w (codes "server") [] found) in
      rw (fill_message_list_by_db-rows folder m found listed e h) (
        length-fill_rows server 1 listed (list_row folder m).1 (λ j k. refl) ∙ omega arith,
        λ k row g.
            fill_rows-at server (suc k) k 1 listed row (list_row folder m).1 (omega arith)
              (λ j k. refl) g,
      )
