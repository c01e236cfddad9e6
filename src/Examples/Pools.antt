-- ===== src/Examples/Pools.antt =====
-- A pool of buffers of 8192 bytes under a cap of 20000.
use p.Prelude.{
  ℕ, ◌≡◌, refl, true, false, Option, none, some, List, [], ◌∷◌, ◌++◌, length, drop, get_elem?,
  arith, if◌then◌else◌,
}
use p.Examples.Kit.{lst}
use p.Budget.{Budget, try_reserve}
use p.Pool.{
  Waiter, Pool, new_waiter, create, park, try_handoff_no_lock, acquire_no_lock, acquire_wait,
  parked, recycle_locked, recycle_batch, stop_waiters, shards, wait_cv_count, grow, take_free,
  reserve_buffer, enter,
}
use p.Pool.Queue.{has, IsQueue, park-IsQueue}
use p.Pool.Recycle.{present, wake, recycle_batch_lem}
use p.Pool.Acquire.{IsSmall, hand_out, acquire_no_lock_lem}
use p.Pool.Stop.{some_one, stop_waiters_lem}
use p.Pool.System.{Sys, IsSound, Reach, here, next, acquires, waits, recycles}
use p.Pool.Safety.{Reach-IsSound}

abbrev blank : ℕ → Waiter
blank a = new_waiter 0

abbrev capped : Budget
capped = record { used = 0; max = 20000 }

abbrev empty : Pool
empty = create 8192 (some capped) blank

empty-IsQueue : IsQueue empty []
unfolding create
empty-IsQueue = record { chain = refl; tail = refl; count = refl; small = omega arith }

-- Nodes 5 and 7 wait, in this order.
abbrev two_waiting : Pool
two_waiting = park 7 (park 5 empty)

five-IsQueue : IsQueue (park 5 empty) (5 ∷ [])
five-IsQueue = park-IsQueue empty 5 [] empty-IsQueue refl (omega arith)

two_waiting-IsQueue : IsQueue two_waiting (5 ∷ 7 ∷ [])
two_waiting-IsQueue = park-IsQueue (park 5 empty) 7 (5 ∷ []) five-IsQueue refl (omega arith)

recycle_batch_lem_example :
    let bufs : List (Option ℕ) = some 1000 ∷ none ∷ some 2000 ∷ some 3000 ∷ [] in
    (q : Pool) × (recycle_batch lst bufs two_waiting ≡ (some q, []))
    × IsQueue q (drop (length (present bufs)) (5 ∷ 7 ∷ []))
    × (q.free ≡ two_waiting.free ++ drop 2 (present bufs))
    × ((i w b : ℕ)
        → get_elem? (5 ∷ 7 ∷ []) i ≡ some w
        → get_elem? (present bufs) i ≡ some b
        → ((q.nodes w).buf ≡ some b) × ((q.nodes w).done ≡ true))
    × ((a : ℕ) → has a (5 ∷ 7 ∷ []) ≡ false → q.nodes a ≡ two_waiting.nodes a)
recycle_batch_lem_example =
    recycle_batch_lem lst (some 1000 ∷ none ∷ some 2000 ∷ some 3000 ∷ []) two_waiting (5 ∷ 7 ∷ [])
      two_waiting-IsQueue

empty-IsSmall : IsSmall empty.budget
unfolding create
empty-IsSmall = omega arith

acquire_no_lock_lem_example :
    acquire_no_lock lst (some 1000) empty ≡ hand_out (some 1000) empty empty.free
acquire_no_lock_lem_example = acquire_no_lock_lem lst empty (some 1000) empty-IsSmall

stop_waiters_lem_example :
    (q : Pool) × (stop_waiters two_waiting ≡ some q)
    × (q.stopping ≡ true)
    × IsQueue q []
    × ((a : ℕ) → has a (5 ∷ 7 ∷ []) ≡ true → ((q.nodes a).buf ≡ none) × ((q.nodes a).done ≡ true))
    × ((a : ℕ) → has a (5 ∷ 7 ∷ []) ≡ false → q.nodes a ≡ two_waiting.nodes a)
    × (q.free ≡ two_waiting.free)
    × (q.all ≡ two_waiting.all)
    × (q.budget ≡ two_waiting.budget)
    × (q.buffer_size ≡ two_waiting.buffer_size)
    × (q.notified ≡ (
        if some_one (5 ∷ 7 ∷ [])
        then shards wait_cv_count ++ two_waiting.notified
        else two_waiting.notified))
stop_waiters_lem_example = stop_waiters_lem two_waiting (5 ∷ 7 ∷ []) two_waiting-IsQueue

-- One thread takes the only buffer that the allocator gives, another waits, the first returns it: the
-- waiter is served, and has not left yet.
abbrev start : Sys
start = record { pool = empty; lent = []; served = []; queue = [] }

abbrev taken : Sys
taken = record {
  pool = (acquire_no_lock lst (some 1000) empty).1;
  lent = 1000 ∷ [];
  served = [];
  queue = [];
}

abbrev waiting : Sys
waiting = record {
  pool = (acquire_wait lst 5 none (taken.pool)).1;
  lent = 1000 ∷ [];
  served = [];
  queue = 5 ∷ [];
}

abbrev returned : Sys
returned = record {
  pool = wake 5 1000 (waiting.pool);
  lent = [];
  served = (5, some 1000) ∷ [];
  queue = [];
}

take_and_wait : Reach lst start waiting
unfolding create acquire_no_lock acquire_wait grow take_free reserve_buffer try_reserve enter park
take_and_wait =
    next (next here (acquires (some 1000) (some 1000) (taken.pool) refl refl refl))
      (waits 5 none parked (waiting.pool) tt refl refl (omega arith) refl refl)

gives_back : recycle_locked lst 1000 (waiting.pool) ≡ some (wake 5 1000 (waiting.pool))
unfolding create acquire_no_lock acquire_wait grow take_free reserve_buffer try_reserve enter park
    recycle_locked try_handoff_no_lock
gives_back = refl

Reach-IsSound_example : IsSound returned
Reach-IsSound_example =
    Reach-IsSound lst 8192 20000 blank {s = returned} (omega arith)
      (next take_and_wait (recycles [] [] 1000 (returned.pool) refl gives_back refl))
