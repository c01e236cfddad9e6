-- ===== src/Pool/Stop.antt =====
-- stop_waiters: the shutdown of the waiter queue.
use p.Prelude.{
  ℕ, zero, suc, ◌≤◌, ◌≡◌, refl, Bool, true, false, ◌||◌, Option, none, some, List, [], ◌∷◌, ◌++◌,
  arith, if◌then◌else◌, length,
}
use p.Pool.{Waiter, Pool, update, stop_one, stop_loop, shards, stop_waiters, wait_cv_count}
use p.Pool.Queue.{has, Chain, IsQueue}

-- The nodes after null was served to each of ws.
abbrev pub stopped : (ℕ → Waiter) → List ℕ → ℕ → Waiter
stopped nodes [] = nodes
stopped nodes (w ∷ ws) = stopped (update nodes w (record (nodes w) { buf = none; done = true })) ws

abbrev pub some_one : List ℕ → Bool
some_one [] = false
some_one (w ∷ ws) = true

abbrev pub stop_result : Pool → List ℕ → Pool
stop_result p ws = record p { wait_head = none; nodes = stopped p.nodes ws }

Chain-stop :
    (nodes : ℕ → Waiter) (w : ℕ) (v : Waiter) (start : Option ℕ) (ws : List ℕ)
    → has w ws ≡ false
    → Chain nodes start ws
    → Chain (update nodes w v) start ws
Chain-stop nodes w v start [] out c = c
Chain-stop nodes w v start (x ∷ ws) out c = ground (arith, Chain-stop nodes w v (nodes x).next ws)

-- With fuel for every queued waiter the loop ends, having served each of them null.
stop_loop_lem :
    (fuel : ℕ) (ws : List ℕ) (p : Pool) (woke : Bool)
    → Chain p.nodes p.wait_head ws
    → length ws ≤ fuel
    → stop_loop fuel p woke ≡ some (woke || some_one ws, stop_result p ws)
unfolding stop_loop
stop_loop_lem zero [] p woke c h = ground arith
stop_loop_lem (suc fuel) [] p woke c h = ground arith
stop_loop_lem zero (w ∷ ws) p woke c h = absurd (omega arith)
stop_loop_lem (suc fuel) (w ∷ ws) p woke c h = ground (
  arith,
  stop_loop_lem fuel ws (stop_one w p) true (
      Chain-stop p.nodes w (record (p.nodes w) { buf = none; done = true }) (p.nodes w).next ws c.1
        c.3),
)

stopped_other :
    (nodes : ℕ → Waiter) (ws : List ℕ) (a : ℕ) → has a ws ≡ false → stopped nodes ws a ≡ nodes a
stopped_other nodes [] a h = refl
stopped_other nodes (w ∷ ws) a h =
    ground
      (arith, stopped_other (update nodes w (record (nodes w) { buf = none; done = true })) ws a)

stopped_kept :
    (nodes : ℕ → Waiter) (ws : List ℕ) (a : ℕ)
    → (nodes a).buf ≡ none
    → (nodes a).done ≡ true
    → ((stopped nodes ws a).buf ≡ none) × ((stopped nodes ws a).done ≡ true)
stopped_kept nodes [] a h k = (h, k)
stopped_kept nodes (w ∷ ws) a h k =
    stopped_kept (update nodes w (record (nodes w) { buf = none; done = true })) ws a (ground arith)
      (ground arith)

stopped_served :
    (nodes : ℕ → Waiter) (ws : List ℕ) (a : ℕ)
    → has a ws ≡ true
    → ((stopped nodes ws a).buf ≡ none) × ((stopped nodes ws a).done ≡ true)
stopped_served nodes [] a h = cc
stopped_served nodes (w ∷ ws) a h = ground (
  arith,
  stopped_kept (update nodes w (record (nodes w) { buf = none; done = true })) ws a,
  stopped_served (update nodes w (record (nodes w) { buf = none; done = true })) ws a,
)

-- On a sound queue stop_waiters ends, serves null to every queued waiter and to no other, empties
-- the queue, refuses further parking, and notifies every shard if there was a waiter; buffers and
-- budget stay.
pub stop_waiters_lem :
    (p : Pool) (ws : List ℕ)
    → IsQueue p ws
    → (q : Pool) × (stop_waiters p ≡ some q)
      × (q.stopping ≡ true)
      × IsQueue q []
      × ((a : ℕ) → has a ws ≡ true → ((q.nodes a).buf ≡ none) × ((q.nodes a).done ≡ true))
      × ((a : ℕ) → has a ws ≡ false → q.nodes a ≡ p.nodes a)
      × (q.free ≡ p.free)
      × (q.all ≡ p.all)
      × (q.budget ≡ p.budget)
      × (q.buffer_size ≡ p.buffer_size)
      × (q.notified ≡ (if some_one ws then shards wait_cv_count ++ p.notified else p.notified))
unfolding stop_waiters
stop_waiters_lem p ws h = (
  record (stop_result p ws) {
    stopping = true;
    wait_tail = none;
    wait_count = 0;
    notified = if some_one ws then shards wait_cv_count ++ p.notified else p.notified;
  },
  ground (arith, stop_loop_lem p.wait_count ws (record p { stopping = true }) false h.chain),
  refl,
  record { chain = refl; tail = refl; count = refl; small = omega arith },
  stopped_served p.nodes ws,
  stopped_other p.nodes ws,
  refl,
  refl,
  refl,
  refl,
  refl,
)
