-- ===== src/Manager/Commands/Messages/Expunge.antt =====
-- What `on_expunge` of chromatic_imap/chromatic_imap_mgr.cpp promises to a client.
use chromatic_imap_cplus_plu.Prelude.{
  ℕ, ◌+◌, ◌<◌, ◌≡◌, refl, sym, ap, ◌∙◌, inl, inr, Bool-cases, true, false, List, [], ◌∷◌, ◌++◌,
  append-nil, append_assoc, Option, none, some, length, if◌then◌else◌,
}
use chromatic_imap_cplus_plu.Prelude.Int.{ℤ}
use chromatic_imap_cplus_plu.Text.{Str, c_str}
use chromatic_imap_cplus_plu.Text.Decimal.{atoi}
use chromatic_imap_cplus_plu.Flags.{deleted, stream_all}
use chromatic_imap_cplus_plu.Handler.Types.{returned}
use chromatic_imap_cplus_plu.MessageManip.{sort}
use chromatic_imap_cplus_plu.MessageManip.Sorting.{NoRepeat}
use chromatic_imap_cplus_plu.Manager.Types.{Answer, World, Manager, Message, Table, rows}
use chromatic_imap_cplus_plu.Manager.Database.{run}
use chromatic_imap_cplus_plu.Manager.Commands.Messages.{
  clear_info, update_mailbox_info_by_db, expunge_arguments, expunge_command, finish_expunge,
  on_expunge, expunge_removed, remove_files, expunged_line, expunged_numbers, on_close,
  message_path,
}
use chromatic_imap_cplus_plu.Manager.Commands.Messages.Replay.{
  replay, spared, Between, limit, replay-expunged,
}

-- The numbers of the messages with the flag \Deleted.
abbrev pub deleted_numbers : Table Message → List ℤ
deleted_numbers [] = []
deleted_numbers (entry ∷ rest) =
    if entry.1.flags deleted then atoi entry.0 ∷ deleted_numbers rest else deleted_numbers rest

module _ (w : World) where
  open w use {Store, Row, remove_file}

  -- The text stands for numbers whose removal, one after the other, leaves what is spared.
  abbrev pub Replayed : {A : Type 0} → List ℤ → List A → Str → Type 0
  Replayed v xs out =
      (ns : List ℕ) × (out ≡ stream_all expunged_line ns) × (replay ns xs ≡ spared v 1 xs)

  module _ (removes : (path : Str) (s : Store) → (remove_file path s).0 ≡ true) where
    -- Where every file is removed, the numbers are those of the deleted messages.
    remove_files_lem :
        (t : Table Message) (v : List ℤ) (m : Manager Store)
        → ((remove_files w t v m).0 ≡ some (v ++ deleted_numbers t))
          × ((remove_files w t v m).1.close_expunge ≡ m.close_expunge)
    unfolding remove_files
    remove_files_lem [] v m = (ap some (sym (append-nil v)), refl)
    remove_files_lem (entry ∷ rest) v m = elim (Bool-cases (entry.1.flags deleted)) [
      | inr kept ↦ rw kept (remove_files_lem rest v m)
      | inl gone ↦
          let path = c_str (message_path w m.proxy_store entry.1) in
          let next = record m { db = (remove_file path m.db).1 } in
          let k = remove_files_lem rest (v ++ atoi entry.0 ∷ []) next in
          rw (gone, removes path m.db)
            (k.0 ∙ ap some (append_assoc v (atoi entry.0 ∷ []) (deleted_numbers rest)), k.1)
    ]

    remove_files-db :
        (t : Table Message) (v : List ℤ) (m : Manager Store)
        → (remove_files w t v m).1 ≡ record m { db = (remove_files w t v m).1.db }
    unfolding remove_files
    remove_files-db [] v m = refl
    remove_files-db (entry ∷ rest) v m = elim (Bool-cases (entry.1.flags deleted)) [
      | inr kept ↦ rw kept (remove_files-db rest v m)
      | inl gone ↦
          let path = c_str (message_path w m.proxy_store entry.1) in
          let next = record m { db = (remove_file path m.db).1 } in
          rw (gone, removes path m.db) (remove_files-db rest (v ++ atoi entry.0 ∷ []) next)
    ]

    finish-closing :
        (result : Option (List ℤ) × Manager Store) (v : List ℤ)
        → result.0 ≡ some v
        → result.1.close_expunge ≡ true
        → finish_expunge w result
          ≡ returned true []
              (record result.1 { messages = []; info = clear_info; close_expunge = false })
    unfolding finish_expunge expunge_removed
    finish-closing (none, q) v e c = absurd cc
    finish-closing (some z, q) v e c = rw c refl

    finish-Replayed :
        {A : Type 0} (v : List ℤ) (xs : List A) (result : Option (List ℤ) × Manager Store)
        → NoRepeat v
        → Between 1 (1 + length xs) v
        → 1 + length xs < limit
        → result.0 ≡ some v
        → result.1.close_expunge ≡ false
        → (out : Str) × (next : Manager Store) × (finish_expunge w result ≡ returned true out next)
          × Replayed v xs out
    unfolding finish_expunge expunge_removed
    finish-Replayed v xs (none, q) u b l e c = absurd cc
    finish-Replayed v xs (some z, q) u b l e c =
        let same_numbers : z ≡ v = cc in
        (
          stream_all expunged_line (expunged_numbers 0 (sort v)),
          update_mailbox_info_by_db w q.info.name false q,
          rw (same_numbers, c) refl,
          (expunged_numbers 0 (sort v), refl, replay-expunged v xs u b l),
        )

    abbrev pub ran : Manager Store → Answer Row × Manager Store
    ran m = run w (expunge_command w) (expunge_arguments w m) m

    on_expunge-rows :
        (params fmt : Str) (m : Manager Store) (found : List Row)
        → (ran m).0 ≡ rows found
        → on_expunge w params fmt m
          ≡ finish_expunge w (remove_files w (ran m).1.messages [] (ran m).1)
    unfolding on_expunge
    on_expunge-rows params fmt m found e = rw (e, on_expunge) refl

    -- Where the database runs the procedure of EXPUNGE, every file can be removed, no CLOSE came
    -- before, and the numbers of the messages marked as deleted are all different and lie in 1..n,
    -- n + 1 < 2 ^ 63: EXPUNGE succeeds, and writes a line for each of some numbers that remove from any
    -- list of n entries, each counted in what the ones before have left, exactly the entries at the
    -- numbers of the messages marked as deleted.
    pub on_expunge-replay :
        {A : Type 0} (params fmt : Str) (m : Manager Store) (xs : List A) (found : List Row)
        → NoRepeat (deleted_numbers m.messages)
        → Between 1 (1 + length xs) (deleted_numbers m.messages)
        → 1 + length xs < limit
        → m.close_expunge ≡ false
        → (ran m).0 ≡ rows found
        → (out : Str) × (next : Manager Store) × (on_expunge w params fmt m
            ≡ returned true out next)
          × Replayed (deleted_numbers m.messages) xs out
    unfolding run
    on_expunge-replay params fmt m xs found u b l c e =
        let lem = remove_files_lem m.messages [] (ran m).1 in
        let k =
          finish-Replayed (deleted_numbers m.messages) xs (remove_files w m.messages [] (ran m).1) u
            b l lem.0 (lem.1 ∙ c) in
        (k.0, k.1, on_expunge-rows params fmt m found e ∙ k.2, k.3)

    -- CLOSE succeeds and changes nothing but a flag; a first EXPUNGE behind it, where the procedure
    -- runs and every file can be removed, writes nothing, and leaves no mailbox, no messages and the
    -- flag cleared.
    pub on_close-on_expunge :
        (a b fmt gmt : Str) (m : Manager Store) (found : List Row)
        → (ran m).0 ≡ rows found
        → (on_close w a fmt m ≡ returned true [] (record m { close_expunge = true }))
          × ((s : Store) × (on_expunge w b gmt (record m { close_expunge = true })
                ≡ returned true []
                    (record m { db = s; messages = []; info = clear_info; close_expunge = false })))
    unfolding on_close run
    on_close-on_expunge a b fmt gmt m found e =
        let closing = record m { close_expunge = true } in
        let result = remove_files w m.messages [] (ran closing).1 in
        let lem = remove_files_lem m.messages [] (ran closing).1 in
        (
          refl,
          (
            result.1.db,
            on_expunge-rows b gmt closing found e
                ∙ finish-closing result (deleted_numbers m.messages) lem.0 lem.1
                ∙ ap {A = Manager Store}
                    (λ q.
                      returned true []
                        (record q { messages = []; info = clear_info; close_expunge = false }))
                    (remove_files-db m.messages [] (ran closing).1),
          ),
        )
