-- ===== src/ThreadPool/Stopping.antt =====
-- That `stop` of chromatic_imap/chromatic_thread_pool.cpp comes back, once every thread has started.
use chromatic_imap_cplus_plu.Prelude.{
  subst, ℕ, zero, suc, ◌+◌, ◌-◌, ◌<◌, ◌≤◌, ◌≡◌, refl, sym, ap, List, [], ◌∷◌, ◌++◌, Option, none,
  some, arith, ◌⊎◌, inl, inr, All,
}
use chromatic_imap_cplus_plu.ThreadPool.{
  Worker, starting, waiting, handling, finished, Stopper, not_stopping, putting, sleeping, stopped,
  Pool, work, stop, enqueue,
}
use chromatic_imap_cplus_plu.ThreadPool.Steps.{
  Works, here, there, Step, works, stops, steps_left, Step-steps_left,
}

abbrev pub calls_left : Stopper → ℕ
calls_left (putting counter) = counter
calls_left _ = 0

abbrev pub Called : Stopper → Type 0
Called not_stopping = ⊥
Called _ = Unit

module _ {H : Type 0} where
  -- The threads that are counted.
  abbrev pub counted : Worker H → ℕ
  counted waiting = 1
  counted (handling handler) = 1
  counted _ = 0

  abbrev pub running : List (Worker H) → ℕ
  running [] = 0
  running (w ∷ ws) = counted w + running ws

  abbrev pub Started : Worker H → Type 0
  Started starting = ⊥
  Started _ = Unit

  -- The requests to end that are in the queue.
  abbrev pub endings : List (Option H) → ℕ
  endings [] = 0
  endings (none ∷ q) = suc (endings q)
  endings (some handler ∷ q) = endings q

  -- `stop` has been called, every thread has started, the counter counts the threads that run, and
  -- there is a request to end for each of them, in the queue or still to be put.
  pub record Stopping (p : Pool H) : Type 0 where
    pub called : Called p.stopper
    pub all_started : All Started p.workers
    pub counts : p.active_threads ≡ running p.workers
    pub balance : endings p.queue + calls_left p.stopper ≡ p.active_threads

  abbrev pub IsFinished : Worker H → Type 0
  IsFinished finished = Unit
  IsFinished _ = ⊥

  -- `stop` has come back, and every thread has left `svc`.
  abbrev pub Done : Pool H → Type 0
  Done p = (p.stopper ≡ stopped) × All IsFinished p.workers

  abbrev Kept : ℕ → List (Option H) → ℕ → ℕ → List (Option H) → ℕ → Type 0
  Kept n q a m r b = (b + n ≡ a + m) × (endings r + n ≡ endings q + m)

  work-Kept :
      (w v : Worker H) (q r : List (Option H)) (a b : ℕ)
      → Started w
      → counted w ≤ a
      → work w q a ≡ some (v, (r, b))
      → Kept (counted w) q a (counted v) r b × Started v
  unfolding work
  work-Kept starting v q r a b s l e = absurd s
  work-Kept waiting v [] r a b s l e = absurd cc
  work-Kept waiting v (none ∷ q) r a b s l e = ground arith
  work-Kept waiting v (some handler ∷ q) r a b s l e = ground arith
  work-Kept (handling handler) v q r a b s l e = ground arith
  work-Kept finished v q r a b s l e = absurd cc

  Works-Kept :
      {ws vs : List (Worker H)} {q r : List (Option H)} {a b : ℕ}
      → Works ws q a vs r b
      → All Started ws
      → running ws ≤ a
      → Kept (running ws) q a (running vs) r b × All Started vs
  Works-Kept (here {w = w} {v = v} {ws = ws} {q = q} {r = r} {a = a} {b = b} e) s l =
      let k = work-Kept w v q r a b s.0 (omega arith) e in ((omega arith, omega arith), (k.1, s.1))
  Works-Kept (there {w = w} h) s l =
      let k = Works-Kept h s.1 (omega arith) in ((omega arith, omega arith), (s.0, k.1))

  endings-snoc : (q : List (Option H)) → endings (q ++ none ∷ []) ≡ suc (endings q)
  endings-snoc [] = refl
  endings-snoc (none ∷ q) = ap suc (endings-snoc q)
  endings-snoc (some handler ∷ q) = endings-snoc q

  abbrev pool : List (Option H) → ℕ → List (Worker H) → Stopper → Pool H
  pool q a ws s = record { queue = q; active_threads = a; workers = ws; stopper = s }

  stop-Stopping :
      (q : List (Option H)) (a : ℕ) (ws : List (Worker H)) (s : Stopper) (next : Pool H)
      → stop (pool q a ws s) ≡ some next
      → Stopping (pool q a ws s)
      → Stopping next
  unfolding stop enqueue
  stop-Stopping q a ws not_stopping next e h = absurd h.called
  stop-Stopping q a ws (putting zero) next e h =
      let made : pool q a ws sleeping ≡ next = cc in
      subst Stopping made (record {
        called = tt;
        all_started = h.all_started;
        counts = h.counts;
        balance = h.balance;
      })
  stop-Stopping q a ws (putting (suc n)) next e h =
      let made : pool (q ++ none ∷ []) a ws (putting n) ≡ next = cc in
      subst Stopping made (record {
        called = tt;
        all_started = h.all_started;
        counts = h.counts;
        balance = omega (arith, endings-snoc q, h.balance);
      })
  stop-Stopping q zero ws sleeping next e h =
      let made : pool q zero ws stopped ≡ next = cc in
      subst Stopping made (record {
        called = tt;
        all_started = h.all_started;
        counts = h.counts;
        balance = h.balance;
      })
  stop-Stopping q (suc n) ws sleeping next e h = absurd cc
  stop-Stopping q a ws stopped next e h = absurd cc

  pub Step-Stopping : {p next : Pool H} → Step p next → Stopping p → Stopping next
  Step-Stopping (works {p = p} {vs = vs} {r = r} {b = b} s) h =
      let k = Works-Kept s h.all_started (omega (arith, h.counts)) in
      record {
        called = h.called;
        all_started = k.1;
        counts = omega (arith, h.counts);
        balance = omega (arith, h.counts, h.balance);
      }
  Step-Stopping (stops {p = p} {next = next} e) h =
      stop-Stopping p.queue p.active_threads p.workers p.stopper next e h

  -- A thread that runs can go on, when the queue has something.
  abbrev Moves : List (Worker H) → List (Option H) → ℕ → Type 0
  Moves ws q a = (vs : List (Worker H)) × (r : List (Option H)) × (b : ℕ) × Works ws q a vs r b

  Moves-there :
      (w : Worker H) (ws : List (Worker H)) (q : List (Option H)) (a : ℕ)
      → Moves ws q a
      → Moves (w ∷ ws) q a
  Moves-there w ws q a (vs, r, b, h) = (w ∷ vs, r, b, there h)

  running-Moves :
      (ws : List (Worker H)) (q : List (Option H)) (a : ℕ)
      → 0 < running ws
      → 0 < endings q
      → Moves ws q a
  unfolding work
  running-Moves [] q a h k = absurd (omega arith)
  running-Moves (starting ∷ ws) q a h k =
      Moves-there starting ws q a (running-Moves ws q a (omega arith) k)
  running-Moves (waiting ∷ ws) [] a h k = absurd (omega arith)
  running-Moves (waiting ∷ ws) (none ∷ q) a h k = (finished ∷ ws, q, a - 1, here refl)
  running-Moves (waiting ∷ ws) (some handler ∷ q) a h k = (handling handler ∷ ws, q, a, here refl)
  running-Moves (handling handler ∷ ws) q a h k = (waiting ∷ ws, q, a, here refl)
  running-Moves (finished ∷ ws) q a h k =
      Moves-there finished ws q a (running-Moves ws q a (omega arith) k)

  All-IsFinished : (ws : List (Worker H)) → All Started ws → running ws ≡ 0 → All IsFinished ws
  All-IsFinished [] s h = tt
  All-IsFinished (starting ∷ ws) s h = absurd s.0
  All-IsFinished (waiting ∷ ws) s h = absurd (omega arith)
  All-IsFinished (handling handler ∷ ws) s h = absurd (omega arith)
  All-IsFinished (finished ∷ ws) s h = (tt, All-IsFinished ws s.1 (omega arith))

  abbrev pub Next : Pool H → Type 0
  Next p = (next : Pool H) × Step p next

  works-Next : (p : Pool H) → Moves p.workers p.queue p.active_threads → Next p
  works-Next p (vs, r, b, h) = (record p { queue = r; active_threads = b; workers = vs }, works h)

  progress :
      (q : List (Option H)) (a : ℕ) (ws : List (Worker H)) (s : Stopper)
      → Stopping (pool q a ws s)
      → Done (pool q a ws s) ⊎ Next (pool q a ws s)
  unfolding stop
  progress q a ws not_stopping h = absurd h.called
  progress q a ws (putting zero) h = inr (pool q a ws sleeping, stops refl)
  progress q a ws (putting (suc n)) h =
      inr
        (record (enqueue none (pool q a ws (putting (suc n)))) { stopper = putting n }, stops refl)
  progress q zero ws sleeping h = inr (pool q zero ws stopped, stops refl)
  progress q (suc n) ws sleeping h = inr (
      works-Next (pool q (suc n) ws sleeping)
        (running-Moves ws q (suc n) (omega (arith, h.counts)) (omega (arith, h.balance))))
  progress q zero ws stopped h = inl (refl, All-IsFinished ws h.all_started (sym h.counts))
  progress q (suc n) ws stopped h = inr (
      works-Next (pool q (suc n) ws stopped)
        (running-Moves ws q (suc n) (omega (arith, h.counts)) (omega (arith, h.balance))))

  -- However the threads are scheduled, `stop` comes back and all threads leave: the pool is done, or
  -- some step can be taken and after each that can the same holds.
  pub data Ends : Pool H → Type 0 where
    ended : {p : Pool H} → Done p → Ends p
    goes_on : {p : Pool H} → Next p → ((next : Pool H) → Step p next → Ends next) → Ends p

  Stopping-Ends_within : (fuel : ℕ) (p : Pool H) → steps_left p < fuel → Stopping p → Ends p
  Stopping-Ends_within zero p l h = absurd (omega arith)
  Stopping-Ends_within (suc fuel) p l h =
      elim (progress p.queue p.active_threads p.workers p.stopper h) [
        | inl d ↦ ended d
        | inr n ↦ goes_on n (λ next s.
            Stopping-Ends_within fuel next (omega (arith, Step-steps_left s)) (Step-Stopping s h))
      ]

  -- When `stop` has been called, every thread has started, and nothing is added any more, then
  -- however the threads are scheduled, `stop` comes back and all threads leave `svc`.
  pub Stopping-Ends : (p : Pool H) → Stopping p → Ends p
  Stopping-Ends p h = Stopping-Ends_within (suc (steps_left p)) p (omega arith) h

  -- The state that a call of `stop` makes of a pool whose threads have all started, with no request
  -- to end in the queue.
  called-Stopping :
      (q : List (Option H)) (a : ℕ) (ws : List (Worker H))
      → All Started ws
      → a ≡ running ws
      → endings q ≡ 0
      → Stopping (pool q a ws (putting a))
  called-Stopping q a ws s c e = record {
    called = tt;
    all_started = s;
    counts = c;
    balance = omega (arith, e);
  }
