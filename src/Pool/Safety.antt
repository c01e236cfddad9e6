-- ===== src/Pool/Safety.antt =====
-- The invariant of the pool over the interleavings of its threads.
use p.Prelude.{
  ℕ, suc, ◌<◌, ◌≡◌, refl, sym, ◌∙◌, inl, inr, true, false, Option, none, some, List, [], ◌∷◌, ◌++◌,
  arith, Bool-cases, some_eq, length,
}
use mathlib.Core.Path.{subst}
use p.Kit.{Lst}
use p.Budget.{Budget, word}
use p.Pool.{
  Waiter, Pool, word32, create, acquire_no_lock, acquire_wait, Entry, parked, returned,
  recycle_locked, park, enter,
}
use p.Pool.Queue.{has}
use p.Pool.Acquire.{hand_out, add_new, charge, acquire_no_lock_lem}
use p.Pool.Recycle.{recycle_locked-nil, recycle_locked-cons}
use p.Pool.Served.{is_served, taken_along}
use p.Pool.Steps.{
  park-IsSound, free-IsSound, wake-IsSound, leaves-IsSound, stops-IsSound, reuses-IsSound,
}
use p.Pool.System.{
  Sys, IsSound, Paid-IsSmall, IsFresh, After, acquire-After, lent_after, queue_after, served_after,
  rest_of, Step, acquires, waits, recycles, leaves, stops, reuses, Reach, here, next,
}

add_new-none :
    (p : Pool) (c : Option (Option Budget)) (answer : Option ℕ) (q : Pool)
    → add_new p c answer ≡ (none, q)
    → q ≡ p
add_new-none p none answer q e = ground arith
add_new-none p (some c) none q e = ground arith
add_new-none p (some c) (some a) q e = cc

-- An acquirer that gets nothing changes nothing, and there was nothing free.
hand_out-none :
    (answer : Option ℕ) (p : Pool) (free : List ℕ) (q : Pool)
    → hand_out answer p free ≡ (none, q)
    → (q ≡ p) × (free ≡ [])
hand_out-none answer p (b ∷ rest) q e = cc
hand_out-none answer p [] q e = (add_new-none p (charge p.buffer_size p.budget) answer q e, refl)

-- The system after acquire_wait, up to its wait.
abbrev Entered : Sys → ℕ → Entry × Pool → Type 0
Entered s self (entry, q) = IsSound (record {
  pool = q;
  lent = lent_after entry s.lent;
  served = s.served;
  queue = queue_after entry self s.queue;
})

enter_got : (self b : ℕ) (q : Pool) → enter self (some b, q) ≡ (returned (some b), q)
unfolding enter
enter_got self b q = refl

enter_stop : (self : ℕ) (q : Pool) → q.stopping ≡ true → enter self (none, q) ≡ (returned none, q)
unfolding enter
enter_stop self q e = ground arith

enter-park :
    (self : ℕ) (q : Pool) → q.stopping ≡ false → enter self (none, q) ≡ (parked, park self q)
unfolding enter
enter-park self q e = ground arith

enter-Entered :
    (s : Sys) (self : ℕ) (r : Option ℕ × Pool)
    → IsSound s
    → has self s.queue ≡ false
    → is_served self s.served ≡ false
    → suc (length s.queue) < word32
    → After s r
    → ((q : Pool) → r ≡ (none, q) → (q ≡ s.pool) × (s.pool.free ≡ []))
    → Entered s self (enter self r)
enter-Entered s self (some b, q) h out gone room a n =
    subst (Entered s self) (sym (enter_got self b q)) a
enter-Entered s self (none, q) h out gone room a n = elim (Bool-cases q.stopping) [
  | inl stop ↦ subst (Entered s self) (sym (enter_stop self q stop)) a
  | inr go ↦
      let (same, empty) = n q refl in
      subst (Entered s self) (sym (enter-park self q go)) (
        subst (λ x. Entered s self (parked, park self x)) (sym same)
          (park-IsSound s self h out gone room empty))
]

module _ (K : Lst) where
  After-IsSound :
      (s : Sys) (answer got : Option ℕ) (q : Pool)
      → IsSound s
      → IsFresh answer s.pool
      → acquire_no_lock K answer s.pool ≡ (got, q)
      → IsSound
          (record { pool = q; lent = taken_along got s.lent; served = s.served; queue = s.queue })
  After-IsSound s answer none q h fresh e = subst (After s) e (acquire-After K s answer h fresh)
  After-IsSound s answer (some b) q h fresh e = subst (After s) e (acquire-After K s answer h fresh)

  waits-IsSound :
      (s : Sys) (self : ℕ) (answer : Option ℕ) (entry : Entry) (q : Pool)
      → IsSound s
      → IsFresh answer s.pool
      → has self s.queue ≡ false
      → is_served self s.served ≡ false
      → suc (length s.queue) < word32
      → acquire_wait K self answer s.pool ≡ (entry, q)
      → Entered s self (entry, q)
  unfolding acquire_wait
  waits-IsSound s self answer entry q h fresh out gone room e = subst (Entered s self) e (
      enter-Entered s self (acquire_no_lock K answer s.pool) h out gone room
        (acquire-After K s answer h fresh)
        (λ q f.
          hand_out-none answer s.pool s.pool.free q
            (sym (acquire_no_lock_lem K s.pool answer (Paid-IsSmall s.pool.budget _ h.paid)) ∙ f)))

  recycles-IsSound :
      (s : Sys) (before after : List ℕ) (b : ℕ) (queue : List ℕ) (q : Pool)
      → IsSound s
      → s.lent ≡ before ++ b ∷ after
      → s.queue ≡ queue
      → recycle_locked K b s.pool ≡ some q
      → IsSound (record {
        pool = q;
        lent = before ++ after;
        served = served_after queue b s.served;
        queue = rest_of queue;
      })
  recycles-IsSound s before after b [] q h e f g =
      subst
        (λ x. IsSound (record { pool = x; lent = before ++ after; served = s.served; queue = [] }))
        (some_eq (sym (recycle_locked-nil K b s.pool (rw f at h.queued)) ∙ g))
        (free-IsSound s before after b h e f)
  recycles-IsSound s before after b (w ∷ ws) q h e f g =
      subst
        (λ x. IsSound (record {
          pool = x;
          lent = before ++ after;
          served = (w, some b) ∷ s.served;
          queue = ws;
        }))
        (some_eq (sym (recycle_locked-cons K b s.pool w ws (rw f at h.queued)) ∙ g))
        (wake-IsSound s before after b w ws h e f)

  Step-IsSound : {s t : Sys} → Step K s t → IsSound s → IsSound t
  Step-IsSound {s} (acquires answer got q fresh e f) h =
      rw f (After-IsSound s answer got q h fresh e)
  Step-IsSound {s} (waits self answer entry q fresh out gone room e f) h =
      rw f (waits-IsSound s self answer entry q h fresh out gone room e)
  Step-IsSound {s} (recycles before after b q e f g) h =
      rw g (recycles-IsSound s before after b s.queue q h e refl f)
  Step-IsSound {s} (leaves before after self o got q e f g) h =
      rw g (leaves-IsSound s before after self o got q h e f)
  Step-IsSound {s} (stops q e f) h = rw f (stops-IsSound s q h e)
  Step-IsSound {s} (reuses a v out gone e) h = rw e (reuses-IsSound s a v h out gone)

  -- From an empty pool with a fresh budget whose cap is below 2^64, whatever critical sections the
  -- threads run and in whatever order, the intrusive queue is the list of the waiting threads in
  -- their order of arrival, none of them served; every waiter that was served and has not left
  -- finds just what it was given in its node, with the mark set, and is no longer queued; every
  -- buffer is, exactly once, free, or returned by a call and not given back, or in the node of a
  -- served waiter; no buffer lies free while a thread waits; and the budget has counted exactly
  -- the bytes of all buffers, within its cap.
  pub Reach-IsSound :
      (size max : ℕ) (nodes : ℕ → Waiter) {s : Sys}
      → max < word
      → Reach K
          (record {
            pool = create size (some (record { used = 0; max = max })) nodes;
            lent = [];
            served = [];
            queue = [];
          })
          s
      → IsSound s
  unfolding create
  Reach-IsSound size max nodes small here = record {
    queued = record { chain = refl; tail = refl; count = refl; small = omega arith };
    delivered = tt;
    owned = λ a. refl;
    single = λ a. omega arith;
    idle = inl refl;
    paid = (omega arith, omega arith, small);
  }
  Reach-IsSound size max nodes small (next r st) =
      Step-IsSound st (Reach-IsSound size max nodes small r)
