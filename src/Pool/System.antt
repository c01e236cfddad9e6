-- ===== src/Pool/System.antt =====
-- The pool with all its threads: every interleaving of the critical sections.
use p.Prelude.{
  ℕ, suc, ◌+◌, ◌*◌, ◌≤◌, ◌<◌, ◌≡◌, refl, ap, ◌⊎◌, inr, false, Option, none, some, List, [], ◌∷◌,
  ◌++◌, arith, length, length-append, count, count-append,
}
use p.Kit.{Lst}
use p.Budget.{Budget, word}
use p.Pool.{
  Waiter, Pool, update, word32, acquire_no_lock, acquire_wait, Entry, parked, returned,
  recycle_locked, leave, stop_waiters,
}
use p.Pool.Queue.{has, IsQueue}
use p.Pool.Acquire.{IsSmall, hand_out, add_new, charge, acquire_no_lock_lem}
use p.Pool.Recycle.{free-IsQueue}
use p.Pool.Served.{given, is_served, Delivered, taken_along, nulls}

-- `lent` lists the buffers that a call has returned and that were not given back; `served` the
-- waiters that were served and have not left acquire_wait yet, with what they were given; `queue` the
-- threads that wait, oldest first.
pub record Sys : Type 0 where
  pub pool : Pool
  pub lent : List ℕ
  pub served : List (ℕ × Option ℕ)
  pub queue : List ℕ

abbrev pub Paid : Option Budget → ℕ → Type 0
Paid none bytes = Unit
Paid (some b) bytes = (b.used ≡ bytes) × (b.used ≤ b.max) × (b.max < word)

pub record IsSound (s : Sys) : Type 0 where
  pub queued : IsQueue s.pool s.queue
  pub delivered : Delivered s.pool.nodes s.queue s.served
  pub owned :
      (a : ℕ)
      → count a s.pool.all ≡ count a s.pool.free + (count a s.lent + count a (given s.served))
  pub single : (a : ℕ) → count a s.pool.all ≤ 1
  pub idle : (s.queue ≡ []) ⊎ (s.pool.free ≡ [])
  pub paid : Paid s.pool.budget (length s.pool.all * s.pool.buffer_size)

-- The allocator answers with an address that the pool does not hold.
abbrev pub IsFresh : Option ℕ → Pool → Type 0
IsFresh none p = Unit
IsFresh (some a) p = count a p.all ≡ 0

pub Paid-IsSmall : (b : Option Budget) (n : ℕ) → Paid b n → IsSmall b
Paid-IsSmall none n h = tt
Paid-IsSmall (some b) n h = h.2

charge-Paid :
    (size n : ℕ) (b c : Option Budget)
    → Paid b (n * size)
    → charge size b ≡ some c
    → Paid c (suc n * size)
charge-Paid size n none none h e = tt
charge-Paid size n none (some c) h e = cc
charge-Paid size n (some b) none h e = ground arith
charge-Paid size n (some b) (some c) h e = ground arith

took_free :
    (s : Sys) (b : ℕ) (rest : List ℕ)
    → IsSound s
    → s.pool.free ≡ b ∷ rest
    → IsSound (record {
      pool = record (s.pool) { free = rest };
      lent = b ∷ s.lent;
      served = s.served;
      queue = s.queue;
    })
took_free s b rest h e = record {
  queued = free-IsQueue s.pool s.queue rest h.queued;
  delivered = h.delivered;
  owned = λ a. ground (arith, h.owned a, ap (count a) e);
  single = h.single;
  idle = ground arith;
  paid = h.paid;
}

took_new :
    (s : Sys) (a : ℕ) (c : Option Budget)
    → IsSound s
    → count a s.pool.all ≡ 0
    → s.pool.free ≡ []
    → Paid c (suc (length s.pool.all) * s.pool.buffer_size)
    → IsSound (record {
      pool = record (s.pool) { all = s.pool.all ++ a ∷ []; budget = c };
      lent = a ∷ s.lent;
      served = s.served;
      queue = s.queue;
    })
took_new s a c h fresh e paid = record {
  queued = record {
    chain = h.queued.chain;
    tail = h.queued.tail;
    count = h.queued.count;
    small = h.queued.small;
  };
  delivered = h.delivered;
  owned = λ x. ground (arith, h.owned x, count-append x s.pool.all (a ∷ []));
  single = λ x. ground (arith, h.single x, count-append x s.pool.all (a ∷ []));
  idle = inr e;
  paid =
      rw (length-append s.pool.all (a ∷ []))
        (let e : length s.pool.all + 1 ≡ suc (length s.pool.all) = omega arith in rw e paid);
}

-- The system after a critical section that took a buffer out of the pool, or did not.
abbrev pub After : Sys → Option ℕ × Pool → Type 0
After s (none, q) = IsSound (record { pool = q; lent = s.lent; served = s.served; queue = s.queue })
After s (some b, q) =
    IsSound (record { pool = q; lent = b ∷ s.lent; served = s.served; queue = s.queue })

add_new-After :
    (s : Sys) (c : Option (Option Budget)) (answer : Option ℕ)
    → IsSound s
    → IsFresh answer s.pool
    → s.pool.free ≡ []
    → charge s.pool.buffer_size s.pool.budget ≡ c
    → After s (add_new s.pool c answer)
add_new-After s none answer h fresh e f = h
add_new-After s (some c) none h fresh e f = h
add_new-After s (some c) (some a) h fresh e f =
    took_new s a c h fresh e
      (charge-Paid s.pool.buffer_size (length s.pool.all) s.pool.budget c h.paid f)

hand_out-After :
    (s : Sys) (free : List ℕ) (answer : Option ℕ)
    → IsSound s
    → IsFresh answer s.pool
    → s.pool.free ≡ free
    → After s (hand_out answer s.pool free)
hand_out-After s [] answer h fresh e = add_new-After s _ answer h fresh e refl
hand_out-After s (b ∷ rest) answer h fresh e = took_free s b rest h e

module _ (K : Lst) where
  pub acquire-After :
      (s : Sys) (answer : Option ℕ)
      → IsSound s
      → IsFresh answer s.pool
      → After s (acquire_no_lock K answer s.pool)
  acquire-After s answer h fresh =
      rw (acquire_no_lock_lem K s.pool answer (Paid-IsSmall s.pool.budget _ h.paid))
        (hand_out-After s s.pool.free answer h fresh refl)

-- The buffers outside, and the queue, after a call of acquire_wait up to its wait.
abbrev pub lent_after : Entry → List ℕ → List ℕ
lent_after (returned got) lent = taken_along got lent
lent_after parked lent = lent

abbrev pub queue_after : Entry → ℕ → List ℕ → List ℕ
queue_after (returned got) self queue = queue
queue_after parked self queue = queue ++ self ∷ []

-- A recycled buffer goes to the oldest waiter, if there is one.
abbrev pub served_after : List ℕ → ℕ → List (ℕ × Option ℕ) → List (ℕ × Option ℕ)
served_after [] b served = served
served_after (w ∷ ws) b served = (w, some b) ∷ served

abbrev pub rest_of : List ℕ → List ℕ
rest_of [] = []
rest_of (w ∷ ws) = ws

-- One critical section of one thread; the last lets a thread reuse the memory of a node that is
-- neither queued nor served.
pub data Step (K : Lst) (s t : Sys) : Type 0 where
  acquires :
      (answer got : Option ℕ) (q : Pool)
      → IsFresh answer s.pool
      → acquire_no_lock K answer s.pool ≡ (got, q)
      → t ≡ record { pool = q; lent = taken_along got s.lent; served = s.served; queue = s.queue }
      → Step K s t
  waits :
      (self : ℕ) (answer : Option ℕ) (entry : Entry) (q : Pool)
      → IsFresh answer s.pool
      → has self s.queue ≡ false
      → is_served self s.served ≡ false
      → suc (length s.queue) < word32
      → acquire_wait K self answer s.pool ≡ (entry, q)
      → t ≡ record {
        pool = q;
        lent = lent_after entry s.lent;
        served = s.served;
        queue = queue_after entry self s.queue;
      }
      → Step K s t
  recycles :
      (before after : List ℕ) (b : ℕ) (q : Pool)
      → s.lent ≡ before ++ b ∷ after
      → recycle_locked K b s.pool ≡ some q
      → t ≡ record {
        pool = q;
        lent = before ++ after;
        served = served_after s.queue b s.served;
        queue = rest_of s.queue;
      }
      → Step K s t
  leaves :
      (before after : List (ℕ × Option ℕ)) (self : ℕ) (o got : Option ℕ) (q : Pool)
      → s.served ≡ before ++ (self, o) ∷ after
      → leave self s.pool ≡ some (got, q)
      → t ≡ record {
        pool = q;
        lent = taken_along got s.lent;
        served = before ++ after;
        queue = s.queue;
      }
      → Step K s t
  stops :
      (q : Pool)
      → stop_waiters s.pool ≡ some q
      → t ≡ record { pool = q; lent = s.lent; served = nulls s.queue ++ s.served; queue = [] }
      → Step K s t
  reuses :
      (a : ℕ) (v : Waiter)
      → has a s.queue ≡ false
      → is_served a s.served ≡ false
      → t ≡ record s { pool = record (s.pool) { nodes = update s.pool.nodes a v } }
      → Step K s t

pub data Reach (K : Lst) (s : Sys) : Sys → Type 0 where
  here : Reach K s s
  next : {t u : Sys} → Reach K s t → Step K t u → Reach K s u
