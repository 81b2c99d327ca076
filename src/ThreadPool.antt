-- ===== src/ThreadPool.antt =====
-- chromatic_imap/chromatic_thread_pool.cpp: the threads that take requests from a queue. A step is one
-- that a thread takes alone: the counter is an ACE_Atomic_Op, and the queue has its own lock. `putq`
-- and `getq` do not fail, and no thread is cancelled. What a handler does, with its `handle_close`
-- where it fails, comes to an end and is one step.
pub mod Steps
pub mod Stopping
use chromatic_imap_cplus_plu.Prelude.{
  ℕ, zero, suc, ◌+◌, ◌-◌, Bool, true, false, List, [], ◌∷◌, ◌++◌, Option, none, some, replicate,
}

-- Where a thread of the pool is in `svc`: before `counter_guard`, in front of `getq`, in a handler
-- that it calls, or at its end.
pub data Worker (H : Type 0) : Type 0 where
  starting : Worker H
  waiting : Worker H
  handling : H → Worker H
  finished : Worker H

-- Where the caller of `stop` is: before the call, in the first loop with `counter` requests to put,
-- in the second loop, or behind it.
pub data Stopper : Type 0 where
  not_stopping : Stopper
  putting : ℕ → Stopper
  sleeping : Stopper
  stopped : Stopper

-- The queue has the blocks of `enqueue`, with none for the handler 0.
pub record Pool (H : Type 0) : Type 0 where
  pub queue : List (Option H)
  pub active_threads : ℕ
  pub workers : List (Worker H)
  pub stopper : Stopper

module _ {H : Type 0} where
  unfoldable pub start : ℕ → Pool H
  start pool_size = record {
    queue = [];
    active_threads = 0;
    workers = replicate pool_size starting;
    stopper = not_stopping;
  }

  unfoldable pub enqueue : Option H → Pool H → Pool H
  enqueue handler p = record p { queue = p.queue ++ handler ∷ [] }

  -- What a thread does next: it counts itself, takes a block and calls its handler or returns,
  -- which counts it out, and comes back from the handler. In front of an empty queue it waits.
  unfoldable pub work : Worker H → List (Option H) → ℕ → Option (Worker H × (List (Option H) × ℕ))
  work starting queue active = some (waiting, (queue, suc active))
  work waiting [] active = none
  work waiting (none ∷ queue) active = some (finished, (queue, active - 1))
  work waiting (some handler ∷ queue) active = some (handling handler, (queue, active))
  work (handling handler) queue active = some (waiting, (queue, active))
  work finished queue active = none

  -- What the caller of `stop` does next; `sleeping` ends when it sees no active thread.
  unfoldable pub stop : Pool H → Option (Pool H)
  unfolding enqueue
  stop p = elim p.stopper [
    | not_stopping ↦ some (record p { stopper = putting p.active_threads })
    | putting counter ↦ elim counter [
      | zero ↦ some (record p { stopper = sleeping })
      | suc n ↦ some (record (enqueue none p) { stopper = putting n })
    ]
    | sleeping ↦ elim p.active_threads [
      | zero ↦ some (record p { stopper = stopped })
      | suc n ↦ none
    ]
    | stopped ↦ none
  ]
