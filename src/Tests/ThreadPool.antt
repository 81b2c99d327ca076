-- ===== src/Tests/ThreadPool.antt =====
-- Concrete runs of the theorems on the pool of threads.
use chromatic_imap_cplus_plu.Prelude.{ℕ, ◌≡◌, refl, [], ◌∷◌, none, some}
use chromatic_imap_cplus_plu.ThreadPool.{
  starting, waiting, handling, putting, not_stopping, Pool, start, work, stop, enqueue,
}
use chromatic_imap_cplus_plu.Prelude.Int.{pos}
use chromatic_imap_cplus_plu.Connection.{thread_pool}
use chromatic_imap_cplus_plu.Acceptor.{Acceptor, acceptor_with_own_pool, open_acceptor, begin_close}
use chromatic_imap_cplus_plu.Acceptor.Closing.{
  Serving, opened, goes_on, gets_handler, open_acceptor-Ends,
}
use chromatic_imap_cplus_plu.ThreadPool.Steps.{Step, works, here}
use chromatic_imap_cplus_plu.ThreadPool.Stopping.{Ends}

-- Two threads, of which one is in a handler, and `stop` with two requests to put.
abbrev busy : Pool ℕ
busy = record {
  queue = some 5 ∷ [];
  active_threads = 2;
  workers = waiting ∷ handling 4 ∷ [];
  stopper = putting 2;
}

abbrev taken : Pool ℕ
taken = record {
  queue = [];
  active_threads = 2;
  workers = handling 5 ∷ handling 4 ∷ [];
  stopper = putting 2;
}

take-Step : Step busy taken
unfolding work
take-Step = works (here refl)

-- A `stop` that comes before the threads have counted themselves sees none and puts nothing.
early_stop : stop (start {H = ℕ} 3) ≡ some (record (start 3) { stopper = putting 0 })
unfolding stop start
early_stop = refl

-- An acceptor with a pool of one thread, which has started and has got a handler.
abbrev one_thread : Acceptor ℕ ℕ
one_thread = acceptor_with_own_pool thread_pool

abbrev after_handler : Pool ℕ
after_handler = record {
  queue = some 5 ∷ [];
  active_threads = 1;
  workers = waiting ∷ [];
  stopper = not_stopping;
}

after_handler-Serving : Serving (open_acceptor (pos 0) none 1 one_thread).0.pool after_handler
unfolding open_acceptor acceptor_with_own_pool start work enqueue
after_handler-Serving =
    gets_handler {p = record after_handler { queue = [] }} 5
      (goes_on {q = []} {a = 0} {ws = starting ∷ []} opened (here refl))

open_acceptor-Ends_example :
    Ends
      (begin_close
        (record (open_acceptor (pos 0) none 1 one_thread).0 { pool = after_handler })).pool
unfolding acceptor_with_own_pool
open_acceptor-Ends_example =
    open_acceptor-Ends (pos 0) none 1 one_thread after_handler refl after_handler-Serving (tt, tt)
