-- ===== src/Connection/Ownership.antt =====
-- Who holds a connection of the pool, in chromatic_imap/chromatic_imap_handler.cpp with the threads of
-- chromatic_imap/chromatic_thread_pool.cpp.
use chromatic_imap_cplus_plu.Prelude.{ℕ, ◌+◌, ◌≡◌, List, Bool, true, false, some, arith}
use chromatic_imap_cplus_plu.Prelude.Int.{pos}
use chromatic_imap_cplus_plu.Text.{Str}
use chromatic_imap_cplus_plu.Handler.Types.{Server, Outcome, done, threw}
use chromatic_imap_cplus_plu.Handler.Process.{process}
use chromatic_imap_cplus_plu.Connection.{
  thread_pool, Connection, Surroundings, enqueued, cmd_buffer_len, is_idle, TimedOut, waited,
  destroyed_twice, timed_out, destroy, open_connection, handle_close, handle_timeout, after_process,
  handle_input, pool_turn,
}

-- A connection, how often it stands in the queue of the pool, and how many threads of the pool have
-- taken it and not come back from it.
pub record Shared (S : Type 0) : Type 0 where
  pub connection : Connection S
  pub queued : ℕ
  pub working : ℕ

abbrev pub bit : Bool → ℕ
bit true = 1
bit false = 0

-- Exactly one holds the connection: the reactor, the queue or a thread, or it is deleted. Its manager is
-- never deleted.
pub record Owned {S : Type 0} (s : Shared S) : Type 0 where
  pub holders : bit s.connection.registered + s.queued + s.working + bit s.connection.deleted ≡ 1
  pub kept : s.connection.has_manager ≡ true

module _ (server : Server) (around : Surroundings) where
  open server use {State}

  -- The steps of the reactor and of the pool on the connection, with no timer that runs out.
  pub data Step : Shared State → Shared State → Type 0 where
    input :
        {s : Shared State} {c : Connection State} (now : ℕ) (pieces rest : List Str)
        → s.connection.registered ≡ true
        → handle_input server thread_pool true now pieces s.connection ≡ enqueued c rest
        → Step s (record s { connection = c; queued = s.queued + 1 })
    take :
        {s : Shared State} {n : ℕ}
        → s.queued ≡ n + 1
        → Step s (record s { queued = n; working = s.working + 1 })
    serve :
        {s : Shared State} {n : ℕ} {c : Connection State} (now : ℕ) (pieces : List Str)
        → s.working ≡ n + 1
        → pool_turn server around (handle_input server thread_pool false now pieces s.connection)
          ≡ some c
        → Step s (record s { connection = c; working = n })
    tick :
        {s : Shared State} (act now : ℕ)
        → s.connection.deleted ≡ false
        → is_idle now s.connection ≡ false
        → Step s (record s { connection = timed_out (handle_timeout around act now s.connection) })

  pub data Reach (s : Shared State) : Shared State → Type 0 where
    here : Reach s s
    next : {t u : Shared State} → Reach s t → Step t u → Reach s u

  -- What a thread of the pool leaves of a connection that it holds.
  abbrev Left : Connection State → Connection State → Type 0
  Left c d = (d.has_manager ≡ c.has_manager) × (bit d.registered + bit d.deleted ≡ 1)

  turn-Left :
      (r : Outcome State × List Str) (c d : Connection State)
      → pool_turn server around (after_process server true r c) ≡ some d
      → c.deleted ≡ false
      → Left c d
  unfolding pool_turn handle_close destroy
  turn-Left (done h rval, rest) c d e k = ground arith
  turn-Left (threw what h, rest) c d e k = absurd cc

  serve-Left :
      (now : ℕ) (pieces : List Str) (c d : Connection State)
      → pool_turn server around (handle_input server thread_pool false now pieces c) ≡ some d
      → c.deleted ≡ false
      → Left c d
  unfolding handle_input
  serve-Left now pieces c d e k =
      turn-Left (process server cmd_buffer_len pieces c.session)
        (record c { last_activity_time = now }) d e k

  input-holders :
      (now : ℕ) (pieces rest : List Str) (c d : Connection State)
      → handle_input server thread_pool true now pieces c ≡ enqueued d rest
      → (d.registered ≡ false) × (d.deleted ≡ c.deleted) × (d.has_manager ≡ c.has_manager)
  unfolding handle_input
  input-holders now pieces rest c d e = ground arith

  timeout-fresh :
      (act now : ℕ) (c : Connection State)
      → is_idle now c ≡ false
      → timed_out (handle_timeout around act now c) ≡ c
  unfolding handle_timeout
  timeout-fresh act now c h = ground arith

  Step-Owned : {s t : Shared State} → Step s t → Owned s → Owned t
  Step-Owned (input {s} {c} now pieces rest r e) o =
      let left = input-holders now pieces rest s.connection c e in ground arith
  Step-Owned (take {s} {n} q) o = ground arith
  Step-Owned (serve {s} {n} {c} now pieces w e) o =
      let left = serve-Left now pieces s.connection c e (ground arith) in ground arith
  Step-Owned (tick {s} act now alive fresh) o =
      let same = timeout-fresh act now s.connection fresh in
      record { holders = rw same o.holders; kept = rw same o.kept }

  Reach-Owned : {s t : Shared State} → Reach s t → Owned s → Owned t
  Reach-Owned here o = o
  Reach-Owned (next r st) o = Step-Owned st (Reach-Owned r o)

  open-holders :
      (c d : Connection State)
      → open_connection thread_pool around c ≡ (d, pos 0)
      → c.deleted ≡ false
      → (d.registered ≡ true) × (d.deleted ≡ false) × (d.has_manager ≡ true)
  unfolding open_connection
  open-holders c d e k = ground arith

  -- From the moment that a new connection of the pool is opened, and while no timer runs out, the connection
  -- is held by exactly one: the reactor, the queue or one thread, or it is deleted. Its manager is
  -- not deleted, not even with the connection.
  pub open_connection-Owned :
      (c d : Connection State) (t : Shared State)
      → open_connection thread_pool around c ≡ (d, pos 0)
      → c.deleted ≡ false
      → Reach (record { connection = d; queued = 0; working = 0 }) t
      → Owned t
  open_connection-Owned c d t e k r =
      let opened = open-holders c d e k in Reach-Owned r (ground arith)

-- What is left where a timer runs out of a connection that one of reactor, queue and threads holds.
abbrev pub AfterTimeout : {S : Type 0} → Shared S → TimedOut S → Type 0
AfterTimeout s (destroyed_twice c) =
    (s.connection.registered ≡ true) × (c.deleted ≡ true) × (s.queued + s.working ≡ 0)
AfterTimeout s (waited c ret) =
    (s.connection.registered ≡ false) × (c.deleted ≡ true) × (s.queued + s.working ≡ 1)
