-- ===== src/Handler/Process/Append.antt =====
-- The APPEND command in `process` of chromatic_imap/chromatic_imap_handler.cpp.
use chromatic_imap_cplus_plu.Handler.Session.{final}
use chromatic_imap_cplus_plu.Handler.Process.{
  c_str, no_packet_error, error_packet, recv, clear_front, replicate, is_append, take_request,
  process, process_loop,
}
use chromatic_imap_cplus_plu.Text.{Str}
use chromatic_imap_cplus_plu.Handler.Types.{PacketError, Handler, Server}
use chromatic_imap_cplus_plu.Prelude.{
  subst, ◌⊎◌, inl, inr, ℕ, ◌≡◌, refl, ◌∙◌, [], ◌∷◌, ◌++◌, List, arith, true,
}

module _ (server : Server) where
  open server use {State, append_text}

  -- A text for the record to append may have been added to the manager's record; the manager is not asked
  -- anything.
  abbrev pub Added : State → State → Type 0
  Added before now = (now ≡ before) ⊎ ((text : Str) × (now ≡ append_text text before))

  -- Texts that have been added to the manager's record, one after another.
  pub data Appended (before : State) : State → Type 0 where
    none_yet : Appended before before
    one_more :
        {now : State} (text : Str) → Appended before now → Appended before (append_text text now)

  -- What a run of `process` keeps while APPEND is the last command: all but the error and the manager's
  -- state, which only gets text for its record.
  abbrev pub Mute : Handler State → Handler State → Type 0
  Mute h g =
      (is_append g.command ≡ true)
      × (g.sent ≡ h.sent)
      × (g.stream ≡ h.stream)
      × (g.token ≡ h.token)
      × (g.states ≡ h.states)
      × (g.command_text ≡ h.command_text)
      × Appended h.context g.context

  -- What one run does.
  abbrev MuteOnce : Handler State → Handler State → Type 0
  MuteOnce h g =
      (is_append g.command ≡ true)
      × (g.sent ≡ h.sent)
      × (g.stream ≡ h.stream)
      × (g.token ≡ h.token)
      × (g.states ≡ h.states)
      × (g.command_text ≡ h.command_text)
      × Added h.context g.context

  mute :
      (h : Handler State) (e : PacketError) (c : State)
      → is_append h.command ≡ true
      → Added h.context c
      → MuteOnce h (record h { error = e; context = c })
  mute h e c a k = (a, refl, refl, refl, refl, refl, k)

  process_loop-Mute :
      (pieces : List Str) (rdbuf text : Str) (h : Handler State)
      → is_append h.command ≡ true
      → MuteOnce h (final (process_loop server pieces rdbuf text h).0)
  unfolding process_loop take_request
  process_loop-Mute [] rdbuf text h a = mute h h.error h.context a (inl refl)
  process_loop-Mute (piece ∷ pieces) rdbuf text h a =
      let more = text ++ c_str (recv piece rdbuf) in
      ground (
        arith,
        mute h h.error h.context a (inl refl),
        process_loop-Mute pieces (clear_front (recv piece rdbuf)) more h a,
        mute h h.error (append_text more h.context) a (inr (more, refl)),
      )

  Appended-Added : {a b c : State} → Added a b → Appended b c → Appended a c
  Appended-Added {a} {b} {c} (inl same) k = subst (λ s. Appended s c) same k
  Appended-Added {a} {b} {c} (inr (text, e)) k = go (subst (λ s. Appended s c) e k)
    where
      go : {c : State} → Appended (append_text text a) c → Appended a c
      go none_yet = one_more text none_yet
      go (one_more more k) = one_more more (go k)

  -- The requests that follow, each as the pieces it comes in, one run of `process` for each.
  abbrev pub serve : ℕ → List (List Str) → Handler State → Handler State
  serve n [] h = h
  serve n (pieces ∷ requests) h = serve n requests (final (process server n pieces h).0)

  -- While APPEND is the last command the session is mute over every list of requests: it stays
  -- the last command, nothing is sent, the stream, the token, the text of the command and the connection
  -- states stay as they were, and all that becomes of the manager's state is that texts are added to its
  -- record.
  pub serve-Mute :
      (n : ℕ) (requests : List (List Str)) (h : Handler State)
      → is_append h.command ≡ true
      → Mute h (serve n requests h)
  unfolding process
  serve-Mute n [] h a = (a, refl, refl, refl, refl, refl, none_yet)
  serve-Mute n (pieces ∷ requests) h a =
      let one = process_loop-Mute pieces (replicate n 0) [] (error_packet no_packet_error h) a in
      let more = serve-Mute n requests (final (process server n pieces h).0) one.0 in
      (
        more.0,
        more.1 ∙ one.1,
        more.2 ∙ one.2,
        more.3 ∙ one.3,
        more.4 ∙ one.4,
        more.5 ∙ one.5,
        Appended-Added one.6 more.6,
      )
