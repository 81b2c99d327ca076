-- ===== src/Manager/Service/FetchMap/Invariant.antt =====
-- FETCH of chromatic_imap/chromatic_imap_mgr.cpp, which looks its keywords up in a table that is empty.
use chromatic_imap_cplus_plu.Tokenizer.{safe_tokenize}
use chromatic_imap_cplus_plu.Manager.Service.FetchMap.Mailboxes.{
  append_words-Keeps, on_examine-Keeps, change_subscription-Keeps, rename_words-Keeps,
  on_delete-Keeps, on_select-Keeps, on_create-Keeps,
}
use chromatic_imap_cplus_plu.Manager.Messages.{to_unsigned}
use chromatic_imap_cplus_plu.Manager.Service.FetchMap.Messages.{
  on_expunge-Keeps, on_store-Keeps, copy_words-Keeps, on_noop-Keeps, on_status-Keeps, on_lsub-Keeps,
  on_list-Keeps, on_login-Keeps,
}
use chromatic_imap_cplus_plu.Manager.Service.{fetch_or_undefined, serve_manager}
use chromatic_imap_cplus_plu.Manager.Database.{roll_back, run}
use chromatic_imap_cplus_plu.Manager.Fetch.Requests.{
  FetchConst, parse_fetch_request_list, fetch_full, fetch_all, fetch_fast, fetch_string,
  FetchRequest,
}
use chromatic_imap_cplus_plu.Prelude.Int.{ℤ}
use chromatic_imap_cplus_plu.Manager.Service.FetchMap.{
  Bool, extract_quoted_string, update_mailbox_info_by_db, Keeps, roll_back, left, run, table,
  update_mailbox_info_by_db-table,
}
use chromatic_imap_cplus_plu.Manager.Commands.Messages.{
  message_path, named_message, before_space, highest, requested, set_message_flags_by_db,
}
use chromatic_imap_cplus_plu.Prelude.{
  if◌then◌else◌, ◌||◌, Bool-cases, false, ◌≡◌, refl, ◌∙◌, ◌⊎◌, inl, inr, ℕ, List, [], ◌∷◌, ◌++◌,
  Option, none, some, arith,
}
use chromatic_imap_cplus_plu.Text.{is_empty, same, codes, Str}
use chromatic_imap_cplus_plu.Handler.Types.{Reply, returned, raised, Service}
use chromatic_imap_cplus_plu.Manager.Types.{clear_record, show_long, Message, World, Manager}
use chromatic_imap_cplus_plu.Manager.Fetch.Mime.{broken, Mime}
use chromatic_imap_cplus_plu.Manager.Commands.Account
use chromatic_imap_cplus_plu.Manager.Commands.Mailboxes
use chromatic_imap_cplus_plu.Manager.Commands.Messages
use chromatic_imap_cplus_plu.Manager.Fetch.Answer.{
  fetch_atoms, Fetching, on_fetch, fetch_each, fetch_message, answer_requests, find_keyword,
  finish_message, aggregate,
}

module _ (w : World) (library : Mime w.Store) where
  open w use {Store, Row}

  finish_message-Keeps :
      (name : Str) (before : Message) (st : Fetching)
      → Keeps w (finish_message w library name before st)
  unfolding finish_message set_message_flags_by_db run roll_back
  finish_message-Keeps name before st m = ground arith

  -- What a FETCH leaves, where it is defined.
  abbrev KeepsAll : Manager Store → Option (Reply (Manager Store)) → Type 0
  KeepsAll m none = Unit
  KeepsAll m (some r) = table w (left r) ≡ table w m

  fetch_each-Keeps :
      (numbers : List ℤ) (requests : List FetchRequest) (ostr : Str) (m : Manager Store)
      → KeepsAll m (fetch_each w library numbers requests ostr m)
  unfolding fetch_each fetch_message
  fetch_each-Keeps [] requests ostr m = refl
  fetch_each-Keeps (n ∷ rest) requests ostr m =
      grind (arith, fetch_each-Keeps rest, finish_message-Keeps)

  on_fetch-Keeps :
      (params fmt : Str) (m : Manager Store) → KeepsAll m (on_fetch w library params fmt m)
  unfolding on_fetch
  on_fetch-Keeps params fmt m =
      grind (arith, fetch_each-Keeps, update_mailbox_info_by_db-table w m.info.name false m)

  module _ (undefined : Manager Store → Reply (Manager Store)) (keeps : Keeps w undefined) where
    fetch_or_undefined-Keeps :
        (params fmt : Str) → Keeps w (fetch_or_undefined w library undefined params fmt)
    unfolding fetch_or_undefined
    fetch_or_undefined-Keeps params fmt m =
        go (on_fetch w library params fmt m) (on_fetch-Keeps params fmt m)
      where
        go :
            (r : Option (Reply (Manager Store)))
            → KeepsAll m r
            → table w (left (elim r [ none ↦ undefined m | some q ↦ q ])) ≡ table w m
        go none h = keeps m
        go (some q) h = h

    -- Where undefined behaviour does so too, every command that the handler passes on, whatever its
    -- parameters, leaves the table of the keywords of FETCH as it is.
    pub serve_manager-fetch_map :
        (service : Service) (params fmt : Str) (m : Manager Store)
        → (left (serve_manager w library undefined service params fmt m)).fetch_map ≡ m.fetch_map
    unfolding serve_manager Account.on_logout Account.on_capability Mailboxes.on_rename
        Mailboxes.on_subscribe Mailboxes.on_unsubscribe Mailboxes.on_append Messages.on_search
        Messages.on_copy Messages.on_close
    serve_manager-fetch_map Service.on_login = on_login-Keeps w
    serve_manager-fetch_map Service.on_logout = λ params fmt m. refl
    serve_manager-fetch_map Service.on_list = on_list-Keeps w
    serve_manager-fetch_map Service.on_create = on_create-Keeps w
    serve_manager-fetch_map Service.on_select = on_select-Keeps w
    serve_manager-fetch_map Service.on_delete = on_delete-Keeps w
    serve_manager-fetch_map Service.on_rename =
        λ params fmt m. rename_words-Keeps w (safe_tokenize params (codes " ")) m
    serve_manager-fetch_map Service.on_lsub = on_lsub-Keeps w
    serve_manager-fetch_map Service.on_status = on_status-Keeps w
    serve_manager-fetch_map Service.on_subscribe = λ params fmt m.
        change_subscription-Keeps w (codes "call insert_subscription( :1 , :2 )") params m
    serve_manager-fetch_map Service.on_unsubscribe = λ params fmt m.
        change_subscription-Keeps w (codes "call delete_subscription( :1 , :2 )") params m
    serve_manager-fetch_map Service.on_examine = on_examine-Keeps w
    serve_manager-fetch_map Service.on_noop = on_noop-Keeps w
    serve_manager-fetch_map Service.on_capability = λ params fmt m. refl
    serve_manager-fetch_map Service.on_search = λ params fmt m. refl
    serve_manager-fetch_map Service.on_copy =
        λ params fmt m. copy_words-Keeps w (safe_tokenize params (codes " ")) m
    serve_manager-fetch_map Service.on_fetch = fetch_or_undefined-Keeps
    serve_manager-fetch_map Service.on_store = on_store-Keeps w
    serve_manager-fetch_map Service.on_close = λ params fmt m. refl
    serve_manager-fetch_map Service.on_expunge = on_expunge-Keeps w
    serve_manager-fetch_map Service.on_append = λ params fmt m.
        append_words-Keeps w (safe_tokenize params (codes " "))
          (record m { append_rec = clear_record m.append_rec })

  -- A FETCH that fails or shows nothing, or is not defined.
  abbrev pub Refuses : Option (Reply (Manager Store)) → Type 0
  Refuses none = Unit
  Refuses (some (returned ok out next)) = out ≡ []
  Refuses (some (raised what out next)) =
      (out ≡ []) × ((what ≡ codes "fetch parse error") ⊎ (what ≡ codes "parse error in fetch"))

  aggregate-cases :
      (requests : List FetchRequest)
      → (aggregate requests ≡ none)
        ⊎ ((r : FetchRequest) × (rest : List FetchRequest) × (aggregate requests ≡ some (r ∷ rest)))
  unfolding aggregate
  aggregate-cases [] = inl refl
  aggregate-cases (r ∷ rest) = inr (elim (Bool-cases (same r.keyword (fetch_string fetch_fast))) [
    | inl fast ↦ rw fast (_, _, refl)
    | inr e ↦ elim (Bool-cases (same r.keyword (fetch_string fetch_all))) [
      | inl all ↦ rw (e, all) (_, _, refl)
      | inr f ↦ elim (Bool-cases (same r.keyword (fetch_string fetch_full))) [
        | inl full ↦ rw (e, f, full) (_, _, refl)
        | inr g ↦ rw (e, f, g) (r, rest, refl)
      ]
    ]
  ])

  answer_requests-unknown :
      (uids : Bool) (path : Str) (keywords : List (FetchConst × Str)) (r : FetchRequest)
      (rest : List FetchRequest) (db : Store) (st : Fetching)
      → keywords ≡ []
      → answer_requests w library uids path keywords (r ∷ rest) db st ≡ broken
  unfolding answer_requests find_keyword
  answer_requests-unknown uids path keywords r rest db st e = rw e refl

  fetch_message-unknown :
      (msg_id : ℕ) (requests rest : List FetchRequest) (r : FetchRequest) (m : Manager Store)
      → m.fetch_map ≡ []
      → aggregate requests ≡ some (r ∷ rest)
      → fetch_message w library msg_id requests m
        ≡ some (r ∷ rest, raised (codes "parse error in fetch") [] m)
  unfolding fetch_message
  fetch_message-unknown msg_id requests rest r m e a =
      let entry = named_message msg_id m in
      let msg = entry.1 in
      let start = if m.uids then codes "UID " ++ show_long msg.uid ++ codes " " else [] in
      rw
        (
          a,
          answer_requests-unknown m.uids (message_path w m.proxy_store msg) m.fetch_map r rest m.db
              (record { peek = false; msg = msg; flags = msg.flags; payload = []; stream = start })
              e,
          fetch_message,
        )
        refl

  fetch_message-no_requests :
      (msg_id : ℕ) (requests : List FetchRequest) (m : Manager Store)
      → aggregate requests ≡ none
      → fetch_message w library msg_id requests m ≡ none
  unfolding fetch_message
  fetch_message-no_requests msg_id requests m a = rw (a, fetch_message) refl

  fetch_each-Refuses :
      (numbers : List ℤ) (requests : List FetchRequest) (m : Manager Store)
      → m.fetch_map ≡ []
      → Refuses (fetch_each w library numbers requests [] m)
  unfolding fetch_each
  fetch_each-Refuses [] requests m e = refl
  fetch_each-Refuses (n ∷ rest) requests m e = elim (aggregate-cases requests) [
    | inl a ↦ rw (fetch_message-no_requests (to_unsigned n) requests m a, fetch_each) tt
    | inr k ↦
        rw (fetch_message-unknown (to_unsigned n) requests k.1 k.0 m e k.2, fetch_each)
          (refl, inr refl)
  ]

  -- While the table of the keywords is empty, no FETCH writes anything, whichever messages and parts
  -- it asks for: it raises one of its two errors, finds no message to show, or is not defined.
  pub on_fetch-Refuses :
      (params fmt : Str) (m : Manager Store)
      → m.fetch_map ≡ []
      → Refuses (on_fetch w library params fmt m)
  unfolding on_fetch
  on_fetch-Refuses params fmt m e =
      elim (Bool-cases (
        is_empty (extract_quoted_string (before_space params))
        || is_empty (fetch_atoms w library params))) [
          | inl nothing ↦ rw nothing (refl, inl refl)
          | inr asked ↦ rw asked (go (parse_fetch_request_list (fetch_atoms w library params)))
        ]
    where
      next : Manager Store
      next = update_mailbox_info_by_db w m.info.name false m

      chosen : List ℤ
      chosen =
          requested next.uids (highest next) (extract_quoted_string (before_space params))
            next.messages

      go :
          (r : Option (List FetchRequest))
          → Refuses (elim r [
            | none ↦ none
            | some requests ↦ fetch_each w library chosen requests [] next
          ])
      go none = tt
      go (some requests) =
          fetch_each-Refuses chosen requests next
            (update_mailbox_info_by_db-table w m.info.name false m ∙ e)
