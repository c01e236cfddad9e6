-- ===== src/Pool.antt =====
-- engine/p8_buffer_pool.hpp and p8_buffer_pool.cpp: the pool of equal buffers with its FIFO queue
-- of blocked acquirers. A buffer is its address. What `new` answers is an argument: a fresh address
-- or none. Every function is the body of one critical section of mo_mutex.
pub mod Acquire
pub mod Recycle
pub mod Queue
pub mod Stop
pub mod Served
pub mod Safety
pub mod System
pub mod Steps
use p.Prelude.{
  ℕ, zero, suc, ◌+◌, ◌-◌, ◌*◌, ◌%◌, ◌^◌, Bool, true, false, not, Option, none, some, List, [], ◌∷◌,
  ◌++◌, ltb, ◌==◌, if◌then◌else◌, length,
}
use p.Kit.{Lst, visit}
use p.Budget
use p.Budget.{Budget, word}

-- The node of a blocked acquirer, on its own stack.
pub record Waiter : Type 0 where
  pub next : Option ℕ
  pub buf : Option ℕ
  pub done : Bool
  pub cv : ℕ

-- `nodes` is the memory of the waiters, by address. `notified` logs the calls of notify_all by
-- their shard, the latest first.
pub record Pool : Type 0 where
  pub buffer_size : ℕ
  pub budget : Option Budget
  pub free : List ℕ
  pub all : List ℕ
  pub nodes : ℕ → Waiter
  pub wait_head : Option ℕ
  pub wait_tail : Option ℕ
  pub wait_count : ℕ
  pub stopping : Bool
  pub cv_next : ℕ
  pub inflight : ℕ
  pub notified : List ℕ

pub record Stat : Type 0 where
  pub buffer_size : ℕ
  pub free_size : ℕ
  pub max_size : ℕ

abbrev pub wait_cv_count : ℕ
wait_cv_count = 64

abbrev pub word32 : ℕ
word32 = 2 ^ 32

abbrev pub update : (ℕ → Waiter) → ℕ → Waiter → ℕ → Waiter
update nodes a v b = if b == a then v else nodes b

unfoldable pub create : ℕ → Option Budget → (ℕ → Waiter) → Pool
create size budget nodes = record {
  buffer_size = size;
  budget = budget;
  free = [];
  all = [];
  nodes = nodes;
  wait_head = none;
  wait_tail = none;
  wait_count = 0;
  stopping = false;
  cv_next = 0;
  inflight = 0;
  notified = [];
}

-- `!mp_budget || mp_budget->try_reserve(mz_buffer_size)`
unfoldable pub reserve_buffer : Pool → Option Budget → Bool × Pool
reserve_buffer p none = (true, p)
reserve_buffer p (some b) =
    let (done, b') = Budget.try_reserve b p.buffer_size in (done, record p { budget = some b' })

-- `if(mp_budget) mp_budget->release(mz_buffer_size)`
unfoldable pub unreserve_buffer : Pool → Option Budget → Pool
unreserve_buffer p none = p
unreserve_buffer p (some b) = record p { budget = some (Budget.release b p.buffer_size) }

-- The node of a blocked acquirer before it is linked.
abbrev pub new_waiter : ℕ → Waiter
new_waiter cv_next = record { next = none; buf = none; done = false; cv = cv_next % wait_cv_count }

-- `if(mp_wait_tail) mp_wait_tail->mp_next = &lo_self`
abbrev pub link_tail : (ℕ → Waiter) → ℕ → Option ℕ → ℕ → Waiter
link_tail nodes self none = nodes
link_tail nodes self (some t) = update nodes t (record (nodes t) { next = some self })

-- `else mp_wait_head = &lo_self`
abbrev pub link_head : ℕ → Option ℕ → Option ℕ → Option ℕ
link_head self none head = some self
link_head self (some t) head = head

-- Queues the node `self`, whose thread then waits.
unfoldable pub park : ℕ → Pool → Pool
park self p = record p {
  nodes = link_tail (update p.nodes self (new_waiter p.cv_next)) self p.wait_tail;
  wait_head = link_head self p.wait_tail p.wait_head;
  wait_tail = some self;
  wait_count = (p.wait_count + 1) % word32;
  cv_next = (p.cv_next + 1) % word32;
  inflight = (p.inflight + 1) % word32;
}

-- `if(!mp_wait_head) mp_wait_tail = nullptr`
abbrev pub cut_tail : Option ℕ → Option ℕ → Option ℕ
cut_tail none tail = none
cut_tail (some _) tail = tail

-- Dequeues the oldest waiter w and marks it served.
abbrev pub hand_to : ℕ → ℕ → Pool → Pool
hand_to w b p = record p {
  wait_head = (p.nodes w).next;
  wait_tail = cut_tail (p.nodes w).next p.wait_tail;
  wait_count = (p.wait_count + word32 - 1) % word32;
  nodes = update p.nodes w (record (p.nodes w) { buf = some b; done = true });
}

-- The shard of the waiter that got the buffer, none where no waiter is queued (-1 in the code);
-- the outer none is a null pointer that is read.
unfoldable pub try_handoff_no_lock : ℕ → Pool → Option (Option ℕ × Pool)
try_handoff_no_lock b p =
    if p.wait_count == 0
    then some (none, p)
    else elim p.wait_head [ none ↦ none | some w ↦ some (some (p.nodes w).cv, hand_to w b p) ]

-- One round of the loop of stop_waiters, which does not touch the tail and the count.
abbrev pub stop_one : ℕ → Pool → Pool
stop_one w p = record p {
  wait_head = (p.nodes w).next;
  nodes = update p.nodes w (record (p.nodes w) { buf = none; done = true });
}

-- The loop of stop_waiters: serves null to every queued waiter, and tells whether there was one.
-- none means that the fuel ran out.
unfoldable pub stop_loop : ℕ → Pool → Bool → Option (Bool × Pool)
stop_loop zero p woke = elim p.wait_head [ none ↦ some (woke, p) | some w ↦ none ]
stop_loop (suc fuel) p woke = elim p.wait_head [
  | none ↦ some (woke, p)
  | some w ↦ stop_loop fuel (stop_one w p) true
]

-- The log of a loop that notifies the shards 0, …, n - 1 in turn.
abbrev pub shards : ℕ → List ℕ
shards zero = []
shards (suc n) = n ∷ shards n

unfoldable pub stop_waiters : Pool → Option Pool
unfolding stop_loop
stop_waiters p = elim (stop_loop p.wait_count (record p { stopping = true }) false) [
  | none ↦ none
  | some (woke, q) ↦ some (record q {
    wait_tail = none;
    wait_count = 0;
    notified = if woke then shards wait_cv_count ++ q.notified else q.notified;
  })
]

-- What a blocked acquirer does once it wakes: none while its predicate is false.
unfoldable pub leave : ℕ → Pool → Option (Option ℕ × Pool)
leave self p =
    if (p.nodes self).done
    then some ((p.nodes self).buf, record p { inflight = (p.inflight + word32 - 1) % word32 })
    else none

-- A call of acquire_wait up to its wait: it has returned, or its node is queued.
pub data Entry : Type 0 where
  returned : Option ℕ → Entry
  parked : Entry

-- acquire_wait behind its call of acquire_no_lock.
unfoldable pub enter : ℕ → Option ℕ × Pool → Entry × Pool
unfolding park
enter self (some b, q) = (returned (some b), q)
enter self (none, q) = if q.stopping then (returned none, q) else (parked, park self q)

-- `mp_budget ? mp_budget->get_max() : …`, on the bytes of all buffers
abbrev pub max_size_of : ℕ → Option Budget → ℕ
max_size_of allocated none = allocated
max_size_of allocated (some b) = b.max

module _ (K : Lst) where
  -- A new buffer joins the pool, if the budget and the allocator allow it.
  unfoldable pub grow : Option ℕ → Pool → Bool × Pool
  unfolding reserve_buffer unreserve_buffer
  grow answer p =
      let (room, q) = reserve_buffer p p.budget in
      if room
      then elim answer [
        | none ↦ (false, unreserve_buffer q q.budget)
        | some a ↦ (true, record q { all = K.push_last q.all a; free = K.push_last q.free a })
      ]
      else (false, q)

  -- One entry of `answers` for each of the iz_initial_count rounds; the count of buffers made.
  unfoldable pub init_loop : List (Option ℕ) → Pool → ℕ → ℕ × Pool
  unfolding grow
  init_loop [] p allocated = (allocated, p)
  init_loop (a ∷ answers) p allocated =
      let (done, q) = grow a p in
      let rest = init_loop answers q (allocated + 1) in if done then rest else (allocated, q)

  unfoldable pub init : List (Option ℕ) → Pool → ℕ × Pool
  unfolding init_loop
  init answers p = init_loop answers p 0

  unfoldable pub take_free : Pool → Option ℕ × Pool
  take_free p = elim (K.pull_first p.free) [
    | none ↦ (none, p)
    | some (b, rest) ↦ (some b, record p { free = rest })
  ]

  unfoldable pub acquire_no_lock : Option ℕ → Pool → Option ℕ × Pool
  unfolding grow take_free
  acquire_no_lock answer p =
      if K.size p.free == 0
      then (let (done, q) = grow answer p in if done then take_free q else (none, q))
      else take_free p

  unfoldable pub stat : Pool → Stat
  stat p =
      let outstanding = (K.size p.all + word - K.size p.free) % word * p.buffer_size % word in
      let max_size = max_size_of (K.size p.all * p.buffer_size % word) p.budget in
      record {
        buffer_size = p.buffer_size;
        max_size = max_size;
        free_size = if ltb outstanding max_size then max_size - outstanding else 0;
      }

  unfoldable pub acquire_wait : ℕ → Option ℕ → Pool → Entry × Pool
  unfolding acquire_no_lock enter
  acquire_wait self answer p = enter self (acquire_no_lock answer p)

  -- The part of both forms of recycle that runs for each buffer.
  unfoldable pub recycle_locked : ℕ → Pool → Option Pool
  unfolding try_handoff_no_lock
  recycle_locked b p = elim (try_handoff_no_lock b p) [
    | none ↦ none
    | some (none, q) ↦ some (record q { free = K.push_last q.free b })
    | some (some shard, q) ↦ some (record q { notified = shard ∷ q.notified })
  ]

  unfoldable pub recycle : Option ℕ → Pool → Option Pool
  unfolding recycle_locked
  recycle none p = some p
  recycle (some b) p = recycle_locked b p

  -- The callback of the batch; a fault stays one.
  abbrev pub recycle_next : Option ℕ → Option Pool → Option Pool
  recycle_next none state = state
  recycle_next (some b) none = none
  recycle_next (some b) (some p) = recycle_locked b p

  unfoldable pub recycle_batch : List (Option ℕ) → Pool → Option Pool × List (Option ℕ)
  unfolding recycle_locked
  recycle_batch bufs p =
      if K.size bufs == 0 then (some p, bufs) else K.clear recycle_next bufs (some p)

  -- The destructor: none while a waiter has not left acquire_wait.
  unfoldable pub destroy : Pool → Option (Option Budget)
  unfolding stop_waiters
  destroy p = elim (stop_waiters p) [
    | none ↦ none
    | some q ↦
        if q.inflight == 0
        then (let reserved = K.size q.all * q.buffer_size % word in
            some (elim q.budget [
              | none ↦ none
              | some b ↦ some (if ltb 0 reserved then Budget.release b reserved else b)
            ]))
        else none
  ]

  unfoldable pub get_free_count : Pool → ℕ
  get_free_count p = K.size p.free
