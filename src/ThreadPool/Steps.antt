-- ===== src/ThreadPool/Steps.antt =====
-- The steps of the pool of chromatic_imap/chromatic_thread_pool.cpp, and that they come to an end when
-- no request is added.
use chromatic_imap_cplus_plu.Prelude.{
  subst, ℕ, zero, suc, ◌+◌, ◌*◌, ◌<◌, ◌≡◌, List, [], ◌∷◌, ◌++◌, Option, none, some, length,
  length-append, arith,
}
use chromatic_imap_cplus_plu.ThreadPool.{
  Worker, starting, waiting, handling, finished, Stopper, not_stopping, putting, sleeping, stopped,
  Pool, work, stop, enqueue,
}

abbrev pub stop_weight : Stopper → ℕ → ℕ
stop_weight not_stopping active = 3 * active + 3
stop_weight (putting counter) active = 3 * counter + 2
stop_weight sleeping active = 1
stop_weight stopped active = 0

module _ {H : Type 0} where
  -- One of the threads goes on.
  pub data Works
      : List (Worker H) → List (Option H) → ℕ → List (Worker H) → List (Option H) → ℕ → Type 0 where
    here :
        {w v : Worker H} {ws : List (Worker H)} {q r : List (Option H)} {a b : ℕ}
        → work w q a ≡ some (v, (r, b))
        → Works (w ∷ ws) q a (v ∷ ws) r b
    there :
        {w : Worker H} {ws vs : List (Worker H)} {q r : List (Option H)} {a b : ℕ}
        → Works ws q a vs r b
        → Works (w ∷ ws) q a (w ∷ vs) r b

  -- A step of the pool to which nothing is added from outside.
  pub data Step : Pool H → Pool H → Type 0 where
    works :
        {p : Pool H} {vs : List (Worker H)} {r : List (Option H)} {b : ℕ}
        → Works p.workers p.queue p.active_threads vs r b
        → Step p (record p { queue = r; active_threads = b; workers = vs })
    stops : {p next : Pool H} → stop p ≡ some next → Step p next

  abbrev pub weight : Worker H → ℕ
  weight starting = 4
  weight waiting = 0
  weight (handling handler) = 1
  weight finished = 0

  abbrev pub weights : List (Worker H) → ℕ
  weights [] = 0
  weights (w ∷ ws) = weight w + weights ws

  -- A bound on the steps that are left.
  abbrev pub steps_left : Pool H → ℕ
  steps_left p = weights p.workers + 2 * length p.queue + stop_weight p.stopper p.active_threads

  abbrev Sinks : ℕ → List (Option H) → ℕ → ℕ → List (Option H) → ℕ → Type 0
  Sinks n q a m r b =
      (m + 2 * length r < n + 2 * length q) × (m + 2 * length r + 3 * b < n + 2 * length q + 3 * a)

  work-Sinks :
      (w v : Worker H) (q r : List (Option H)) (a b : ℕ)
      → work w q a ≡ some (v, (r, b))
      → Sinks (weight w) q a (weight v) r b
  unfolding work
  work-Sinks starting v q r a b e = ground arith
  work-Sinks waiting v [] r a b e = absurd cc
  work-Sinks waiting v (none ∷ q) r a b e = ground arith
  work-Sinks waiting v (some handler ∷ q) r a b e = ground arith
  work-Sinks (handling handler) v q r a b e = ground arith
  work-Sinks finished v q r a b e = absurd cc

  Works-Sinks :
      {ws vs : List (Worker H)} {q r : List (Option H)} {a b : ℕ}
      → Works ws q a vs r b
      → Sinks (weights ws) q a (weights vs) r b
  Works-Sinks (here {w = w} {v = v} {q = q} {r = r} {a = a} {b = b} e) =
      omega (arith, work-Sinks w v q r a b e)
  Works-Sinks (there h) = omega (arith, Works-Sinks h)

  Sinks-stop_weight :
      (s : Stopper) (n : ℕ) (q : List (Option H)) (a m : ℕ) (r : List (Option H)) (b : ℕ)
      → Sinks n q a m r b
      → m + 2 * length r + stop_weight s b < n + 2 * length q + stop_weight s a
  Sinks-stop_weight not_stopping n q a m r b h = omega arith
  Sinks-stop_weight (putting counter) n q a m r b h = omega arith
  Sinks-stop_weight sleeping n q a m r b h = omega arith
  Sinks-stop_weight stopped n q a m r b h = omega arith

  abbrev pool : List (Option H) → ℕ → List (Worker H) → Stopper → Pool H
  pool q a ws s = record { queue = q; active_threads = a; workers = ws; stopper = s }

  stop-steps_left :
      (q : List (Option H)) (a : ℕ) (ws : List (Worker H)) (s : Stopper) (next : Pool H)
      → stop (pool q a ws s) ≡ some next
      → steps_left next < steps_left (pool q a ws s)
  unfolding stop enqueue
  stop-steps_left q a ws not_stopping next e =
      let made : pool q a ws (putting a) ≡ next = cc in
      subst (λ p. steps_left p < steps_left (pool q a ws not_stopping)) made (omega arith)
  stop-steps_left q a ws (putting zero) next e =
      let made : pool q a ws sleeping ≡ next = cc in
      subst (λ p. steps_left p < steps_left (pool q a ws (putting zero))) made (omega arith)
  stop-steps_left q a ws (putting (suc n)) next e =
      let made : pool (q ++ none ∷ []) a ws (putting n) ≡ next = cc in
      subst (λ p. steps_left p < steps_left (pool q a ws (putting (suc n)))) made
        (omega (arith, length-append q (none ∷ [])))
  stop-steps_left q zero ws sleeping next e =
      let made : pool q zero ws stopped ≡ next = cc in
      subst (λ p. steps_left p < steps_left (pool q zero ws sleeping)) made (omega arith)
  stop-steps_left q (suc n) ws sleeping next e = absurd cc
  stop-steps_left q a ws stopped next e = absurd cc

  -- Any step of a pool to which nothing is added leaves fewer steps to go: there are no more of
  -- them than `steps_left` from the start, and none of the pool's loops goes on for ever.
  pub Step-steps_left : {p next : Pool H} → Step p next → steps_left next < steps_left p
  Step-steps_left (works {p = p} {vs = vs} {r = r} {b = b} h) =
      Sinks-stop_weight p.stopper (weights p.workers) p.queue p.active_threads (weights vs) r b
        (Works-Sinks h)
  Step-steps_left (stops {p = p} {next = next} e) =
      stop-steps_left p.queue p.active_threads p.workers p.stopper next e
