-- ===== src/Acceptor.antt =====
-- chromatic_imap/chromatic_acceptor.cpp: the acceptor of connections, and the pool of threads that it starts
-- and stops. What its base class of ACE does with the address is a parameter.
pub mod Closing
use chromatic_imap_cplus_plu.Prelude.{
  ℕ, Bool, true, false, ◌&&◌, [], Option, none, some, if◌then◌else◌,
}
use chromatic_imap_cplus_plu.Prelude.Int.{ℤ}
use chromatic_imap_cplus_plu.ThreadPool.{Pool, not_stopping, start, stop}
use chromatic_imap_cplus_plu.Connection.{Concurrency, thread_pool, is_pool}

-- `pool` is what the_thread_pool_ refers to: its own pool, where `thread_pool_is_private`, or the one
-- that it has been given.
pub record Acceptor (H : Type 0) (D : Type 0) : Type 0 where
  pub concurrency : Concurrency
  pub thread_pool_is_private : Bool
  pub pool : Pool H
  pub instance_data : Option D

module _ {H : Type 0} where
  -- chromatic_thread_pool()
  unfoldable pub new_pool : Pool H
  new_pool = record { queue = []; active_threads = 0; workers = []; stopper = not_stopping }

  module _ {D : Type 0} where
    unfoldable pub acceptor_with_own_pool : Concurrency → Acceptor H D
    unfolding new_pool
    acceptor_with_own_pool concurrency = record {
      concurrency = concurrency;
      thread_pool_is_private = true;
      pool = new_pool;
      instance_data = none;
    }

    unfoldable pub acceptor_over_pool : Pool H → Acceptor H D
    acceptor_over_pool pool = record {
      concurrency = thread_pool;
      thread_pool_is_private = false;
      pool = pool;
      instance_data = none;
    }

    -- Whether the acceptor starts and stops the pool.
    abbrev pub runs_pool : Acceptor H D → Bool
    runs_pool a = is_pool a.concurrency && a.thread_pool_is_private

    -- `inherited` is what inherited::open gives.
    unfoldable pub open_acceptor : ℤ → Option D → ℕ → Acceptor H D → Acceptor H D × ℤ
    unfolding start
    open_acceptor inherited instance_data pool_size a =
        let a' = record a { instance_data = instance_data } in
        (if runs_pool a' then record a' { pool = start pool_size } else a', inherited)

    -- `close` until it is in `stop`, which puts the stopper in its first loop. It goes on to inherited::close
    -- when `stop` has come back.
    unfoldable pub begin_close : Acceptor H D → Acceptor H D
    unfolding stop
    begin_close a =
        if runs_pool a
        then elim (stop a.pool) [ none ↦ a | some pool ↦ record a { pool = pool } ]
        else a

    -- The destructor. `close_hook` is what the method `close` of ACE_Task_Base does with the pool.
    unfoldable pub destroy_acceptor : (Pool H → Pool H) → Acceptor H D → Acceptor H D
    destroy_acceptor close_hook a = if runs_pool a then record a { pool = close_hook a.pool } else a
