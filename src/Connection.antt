-- ===== src/Connection.antt =====
-- The life of a connection, chromatic_imap/chromatic_imap_handler.cpp: open, close, the methods that the
-- reactor of ACE calls, and the loop of a thread of its own. A time is a number of seconds. The peer, the
-- reactor's and the thread manager's answers are parameters; a handler that is deleted loses its timer
-- and its registration.
pub mod Ownership
use chromatic_imap_cplus_plu.Prelude.{
  ℕ, zero, suc, ◌+◌, Bool, true, false, not, ◌&&◌, List, [], ◌∷◌, ◌++◌, Option, none, some, leb,
  ◌==◌, if◌then◌else◌,
}
use chromatic_imap_cplus_plu.Prelude.Int.{ℤ, pos, negsuc, eqb_ℤ}
use chromatic_imap_cplus_plu.Text.{Str, codes}
use chromatic_imap_cplus_plu.Handler.Types.{Server, Handler, Outcome, done, threw}
use chromatic_imap_cplus_plu.Handler.Output.{crlf, write, flush_stream_to_connector, output_prompt}
use chromatic_imap_cplus_plu.Handler.Process.{process}

-- concurrency_t
pub data Concurrency : Type 0 where
  single_threaded thread_per_connection thread_pool : Concurrency

abbrev pub is_pool : Concurrency → Bool
is_pool thread_pool = true
is_pool _ = false

abbrev pub is_thread : Concurrency → Bool
is_thread thread_per_connection = true
is_thread _ = false

abbrev pub cmd_buffer_len : ℕ
cmd_buffer_len = 65_536

-- The argument with which `open` schedules the timer.
abbrev pub timer_id : ℕ
timer_id = 0

-- BUFSIZ of the C library.
abbrev pub bufsiz : ℕ
bufsiz = 8_192

abbrev pub minus_one : ℤ
minus_one = negsuc 0

-- The handler with what its base class and the reactor keep of it: whether it is registered for input,
-- whether it has its manager, and whether it has been deleted.
pub record Connection (S : Type 0) : Type 0 where
  pub session : Handler S
  pub last_activity_time : ℕ
  pub maximum_time_to_wait : ℕ
  pub registered : Bool
  pub has_manager : Bool
  pub deleted : Bool

-- The surroundings: the text of the peer's address, the name of the computer, whether the address is
-- found, what `activate` gives, and whether the reactor takes the handler.
pub record Surroundings : Type 0 where
  pub client_addr : Str
  pub computer_name : Str
  pub addr_found : Bool
  pub activated : ℤ
  pub takes_handler : Bool

-- How `handle_input` ends: with its result and the pieces that it has not read; with the handler in the
-- queue of the pool; or with an exception.
pub data Handled (S : Type 0) : Type 0 where
  handled : ℤ → Connection S → List Str → Handled S
  enqueued : Connection S → List Str → Handled S
  uncaught : Str → Connection S → Handled S

-- How `handle_timeout` ends: with its result, or with a call of a method of the handler that it has already
-- deleted, which is undefined.
pub data TimedOut (S : Type 0) : Type 0 where
  waited : Connection S → ℤ → TimedOut S
  destroyed_twice : Connection S → TimedOut S

-- The connection that the timer leaves.
abbrev pub timed_out : {S : Type 0} → TimedOut S → Connection S
timed_out (waited c ret) = c
timed_out (destroyed_twice c) = c

-- The thread of a connection ends with -1, goes on, or ends with an exception.
pub data Served (S : Type 0) : Type 0 where
  ended : Connection S → Served S
  going_on : Connection S → Served S
  aborted : Str → Connection S → Served S

module _ {S : Type 0} where
  unfoldable pub output_boiler_plate : Str → Handler S → Handler S
  unfolding flush_stream_to_connector
  output_boiler_plate computer_name h = flush_stream_to_connector (
      write
        (codes "* OK IMAP4rev1 Ready Oemo Imap Message Server "
          ++ computer_name
          ++ codes " Overtone Software Inc. All Rights Reserved  Ready"
          ++ crlf
          ++ output_prompt false h)
        h)

  -- `delete this` closes the peer; the manager is not deleted.
  unfoldable pub destroy : Connection S → Connection S
  destroy c = record c { registered = false; deleted = true }

  unfoldable pub open_connection : Concurrency → Surroundings → Connection S → Connection S × ℤ
  unfolding output_boiler_plate
  open_connection concurrency around c =
      let greeted = output_boiler_plate around.computer_name c.session in
      let opened = record c { session = record greeted { silent = false }; has_manager = true } in
      if is_thread concurrency
      then (opened, around.activated)
      else if not around.addr_found
      then (opened, minus_one)
      else if not around.takes_handler
      then (opened, minus_one)
      else (record opened { registered = true }, pos 0)

  unfoldable pub close : Connection S → Connection S × ℤ
  unfolding destroy
  close c = (destroy (record c { has_manager = false }), pos 0)

  unfoldable pub handle_close : Surroundings → Connection S → Connection S × ℤ
  unfolding destroy flush_stream_to_connector
  handle_close around c =
      let goodbye =
        codes " * Goodbye "
        ++ around.client_addr
        ++ codes "......Oemo Imap Message Proxy"
        ++ crlf in
      (destroy (record c { session = flush_stream_to_connector (write goodbye c.session) }), pos 0)

  -- now - m_lastActivityTime >= m_maximumTimeToWait
  abbrev pub is_idle : ℕ → Connection S → Bool
  is_idle now c = leb (c.last_activity_time + c.maximum_time_to_wait) now

  -- Without DONT_CALL, remove_handler has the reactor call `handle_close` of a handler that it has registered.
  -- That deletes the handler, of which `handle_timeout` then calls `destroy` again.
  unfoldable pub handle_timeout : Surroundings → ℕ → ℕ → Connection S → TimedOut S
  unfolding destroy flush_stream_to_connector handle_close
  handle_timeout around act now c =
      let bye = codes " BYE Autologout; idle for too long" ++ crlf in
      let said = record c { session = flush_stream_to_connector (write bye c.session) } in
      if act == timer_id && is_idle now c
      then if c.registered
        then destroyed_twice (handle_close around (record said { registered = false })).0
        else waited (destroy said) (pos 0)
      else waited c (pos 0)

module _ (server : Server) where
  open server use {State}

  -- The result of `process`, kept in the handler.
  abbrev pub after_process : Bool → Outcome State × List Str → Connection State → Handled State
  after_process pool (done h rval, rest) c =
      handled rval
        (record c {
          session = h;
          registered = if pool && not (eqb_ℤ rval minus_one) then true else c.registered;
        })
        rest
  after_process pool (threw what h, rest) c = uncaught what (record c { session = h })

  unfoldable pub handle_input : Concurrency → Bool → ℕ → List Str → Connection State → Handled State
  handle_input concurrency is_creator now pieces c =
      let active = record c { last_activity_time = now } in
      if is_pool concurrency && is_creator
      then enqueued (record active { registered = false }) pieces
      else after_process (is_pool concurrency) (process server cmd_buffer_len pieces c.session)
          active

  -- What a thread of the pool does with the result of `handle_input`. An enqueued block is not -1, and an
  -- exception ends the thread.
  unfoldable pub pool_turn : Surroundings → Handled State → Option (Connection State)
  unfolding handle_close
  pool_turn around (handled rval c rest) =
      some (if eqb_ℤ rval minus_one then (handle_close around c).0 else c)
  pool_turn around (enqueued c rest) = some c
  pool_turn around (uncaught what c) = none

  -- What a turn of `svc` does with the result of `process`, and what the next turns do.
  unfoldable pub svc_turn :
      (List Str → Connection State → Served State)
      → Outcome State × List Str
      → Connection State
      → Served State
  svc_turn next (done h rval, rest) c = elim (eqb_ℤ rval minus_one) [
    | true ↦ ended (record c { session = h })
    | false ↦ next rest (record c { session = h })
  ]
  svc_turn next (threw what h, rest) c = aborted what (record c { session = h })

  -- The loop of `svc`, for a number of turns.
  unfoldable pub svc : ℕ → List Str → Connection State → Served State
  unfolding svc_turn
  svc zero pieces c = going_on c
  svc (suc turns) pieces c = svc_turn (svc turns) (process server bufsiz pieces c.session) c
