-- ===== src/Acceptor/Closing.antt =====
-- What becomes of the threads that an acceptor of chromatic_imap/chromatic_acceptor.cpp has started when it is
-- closed: `close`, which calls `stop` of chromatic_imap/chromatic_thread_pool.cpp.
use chromatic_imap_cplus_plu.Prelude.{
  subst, ℕ, zero, suc, ◌+◌, ◌≤◌, ◌≡◌, refl, ◌∙◌, sym, true, List, [], ◌∷◌, ◌++◌, Option, none, some,
  All, arith,
}
use chromatic_imap_cplus_plu.Prelude.Int.{ℤ}
use chromatic_imap_cplus_plu.ThreadPool.{
  Worker, starting, waiting, handling, finished, Stopper, not_stopping, putting, sleeping, stopped,
  Pool, start, work, stop, enqueue,
}
use chromatic_imap_cplus_plu.ThreadPool.Steps.{Works, here, there, Step, stops}
use chromatic_imap_cplus_plu.ThreadPool.Stopping.{
  counted, running, endings, Started, Ends, Stopping, Stopping-Ends,
}
use chromatic_imap_cplus_plu.Acceptor.{Acceptor, runs_pool, open_acceptor, begin_close}

running-start : (H : Type 0) (n : ℕ) → running (start {H = H} n).workers ≡ 0
unfolding start
running-start H zero = refl
running-start H (suc n) = omega (arith, running-start H n)

module _ {H : Type 0} where
  -- A pool at work: its threads go on, and handlers are put into its queue.
  pub data Serving (from : Pool H) : Pool H → Type 0 where
    opened : Serving from from
    goes_on :
        {q r : List (Option H)} {a b : ℕ} {ws vs : List (Worker H)} {s : Stopper}
        → Serving from (record { queue = q; active_threads = a; workers = ws; stopper = s })
        → Works ws q a vs r b
        → Serving from (record { queue = r; active_threads = b; workers = vs; stopper = s })
    gets_handler : {p : Pool H} (h : H) → Serving from p → Serving from (enqueue (some h) p)

  -- A pool that has not been stopped: its counter counts the threads that run, and nothing asks them to end.
  record Open (p : Pool H) : Type 0 where
    not_called : p.stopper ≡ not_stopping
    counts : p.active_threads ≡ running p.workers
    no_endings : endings p.queue ≡ 0

  work-Open :
      (w v : Worker H) (q r : List (Option H)) (a b : ℕ)
      → counted w ≤ a
      → endings q ≡ 0
      → work w q a ≡ some (v, (r, b))
      → (b + counted w ≡ a + counted v) × (endings r ≡ 0)
  unfolding work
  work-Open starting v q r a b l n e = ground arith
  work-Open waiting v [] r a b l n e = absurd cc
  work-Open waiting v (none ∷ q) r a b l n e = absurd (omega arith)
  work-Open waiting v (some handler ∷ q) r a b l n e = ground arith
  work-Open (handling handler) v q r a b l n e = ground arith
  work-Open finished v q r a b l n e = absurd cc

  Works-Open :
      {ws vs : List (Worker H)} {q r : List (Option H)} {a b : ℕ}
      → Works ws q a vs r b
      → running ws ≤ a
      → endings q ≡ 0
      → (b + running ws ≡ a + running vs) × (endings r ≡ 0)
  Works-Open (here {w = w} {v = v} {q = q} {r = r} {a = a} {b = b} e) l n =
      let k = work-Open w v q r a b (omega arith) n e in (omega arith, k.1)
  Works-Open (there h) l n = let k = Works-Open h (omega arith) n in (omega arith, k.1)

  endings-append_handler : (q : List (Option H)) (h : H) → endings (q ++ some h ∷ []) ≡ endings q
  endings-append_handler [] h = refl
  endings-append_handler (none ∷ q) h = ground (arith, endings-append_handler q h)
  endings-append_handler (some g ∷ q) h = endings-append_handler q h

  start-Open : (n : ℕ) → Open (start n)
  unfolding start
  start-Open n = record { not_called = refl; counts = sym (running-start H n); no_endings = refl }

  Serving-Open : {from p : Pool H} → Open from → Serving from p → Open p
  unfolding enqueue
  Serving-Open o opened = o
  Serving-Open o (goes_on s h) =
      let o' = Serving-Open o s in
      let k = Works-Open h (omega (arith, o'.counts)) o'.no_endings in
      record { not_called = o'.not_called; counts = omega (arith, o'.counts); no_endings = k.1 }
  Serving-Open o (gets_handler {p = p} h s) =
      let o' = Serving-Open o s in
      record {
        not_called = o'.not_called;
        counts = o'.counts;
        no_endings = endings-append_handler p.queue h ∙ o'.no_endings;
      }

  -- What a call of `stop` does first.
  abbrev called : Pool H → Pool H
  called p = record p { stopper = putting p.active_threads }

  stop-called : (p : Pool H) → p.stopper ≡ not_stopping → stop p ≡ some (called p)
  unfolding stop
  stop-called p e = rw (e, stop) refl

  called-Stopping : (p : Pool H) → Open p → All Started p.workers → Stopping (called p)
  called-Stopping p o s = record {
    called = tt;
    all_started = s;
    counts = o.counts;
    balance = omega (arith, o.no_endings);
  }

  module _ {D : Type 0} where
    open_acceptor-Open :
        (inherited : ℤ) (data' : Option D) (n : ℕ) (a : Acceptor H D)
        → runs_pool a ≡ true
        → Open (open_acceptor inherited data' n a).0.pool
    unfolding open_acceptor
    open_acceptor-Open inherited data' n a e = rw (e, open_acceptor) (start-Open n)

    begin_close-called :
        (a : Acceptor H D)
        → runs_pool a ≡ true
        → a.pool.stopper ≡ not_stopping
        → (begin_close a).pool ≡ called a.pool
    unfolding begin_close
    begin_close-called a e c = rw (e, stop-called a.pool c, begin_close) refl

    open_acceptor-runs :
        (inherited : ℤ) (data' : Option D) (n : ℕ) (a : Acceptor H D)
        → runs_pool a ≡ true
        → runs_pool (open_acceptor inherited data' n a).0 ≡ true
    unfolding open_acceptor
    open_acceptor-runs inherited data' n a e = rw (e, open_acceptor) e

    -- An acceptor that runs its own pool is opened. When handlers have come in and every thread has
    -- started, it is closed: if no handler comes in then, `stop` comes back and all threads leave, however
    -- they are scheduled.
    pub open_acceptor-Ends :
        (inherited : ℤ) (data' : Option D) (n : ℕ) (a : Acceptor H D) (p : Pool H)
        → runs_pool a ≡ true
        → Serving (open_acceptor inherited data' n a).0.pool p
        → All Started p.workers
        → Ends (begin_close (record (open_acceptor inherited data' n a).0 { pool = p })).pool
    open_acceptor-Ends inherited data' n a p e s started =
        let o = Serving-Open (open_acceptor-Open inherited data' n a e) s in
        let closing = record (open_acceptor inherited data' n a).0 { pool = p } in
        subst Ends
          (sym (begin_close-called closing (open_acceptor-runs inherited data' n a e) o.not_called))
          (Stopping-Ends (called p) (called-Stopping p o started))

  abbrev pool_with : ℕ → Stopper → Pool H
  unfolding start
  pool_with n stopper = record (start n) { stopper = stopper }

  -- A `close` before the threads have counted themselves comes back at once, with all of them still to come.
  close-early :
      (n : ℕ)
      → Step (pool_with n not_stopping) (pool_with n (putting 0))
        × Step (pool_with n (putting 0)) (pool_with n sleeping)
        × Step (pool_with n sleeping) (pool_with n stopped)
  unfolding stop start
  close-early n = (stops refl, stops refl, stops refl)
