-- ===== src/Pool/Steps.antt =====
-- The critical sections of engine/p8_buffer_pool.cpp one by one, on a sound pool with its threads.
use p.Prelude.{
  ℕ, suc, ◌+◌, ◌-◌, ◌%◌, ◌<◌, ◌≡◌, refl, sym, ap, ◌∙◌, inl, inr, false, Option, some, List, [], ◌∷◌,
  ◌++◌, arith, some_eq, length, count, count-append,
}
use mathlib.Core.Path.{subst}
use p.Pool.{Waiter, Pool, update, word32, leave, stop_waiters, park}
use p.Pool.Queue.{has, Chain-update, park-IsQueue}
use p.Pool.Recycle.{wake, wake-IsQueue, free-IsQueue}
use p.Pool.Stop.{stop_waiters_lem}
use p.Pool.Served.{
  given, is_served, Delivered, Delivered-kept, Delivered-update, Delivered-leave, taken_along,
  count-given, nulls, given-nulls, Delivered-nulls, Delivered-park,
}
use p.Pool.System.{Sys, IsSound}

pub park-IsSound :
    (s : Sys) (self : ℕ)
    → IsSound s
    → has self s.queue ≡ false
    → is_served self s.served ≡ false
    → suc (length s.queue) < word32
    → s.pool.free ≡ []
    → IsSound (record {
      pool = park self s.pool;
      lent = s.lent;
      served = s.served;
      queue = s.queue ++ self ∷ [];
    })
unfolding park
park-IsSound s self h out gone room e = record {
  queued = park-IsQueue s.pool self s.queue h.queued out room;
  delivered = Delivered-park s.pool self s.queue s.served h.queued gone h.delivered;
  owned = h.owned;
  single = h.single;
  idle = inr e;
  paid = h.paid;
}

pub free-IsSound :
    (s : Sys) (before after : List ℕ) (b : ℕ)
    → IsSound s
    → s.lent ≡ before ++ b ∷ after
    → s.queue ≡ []
    → IsSound (record {
      pool = record (s.pool) { free = s.pool.free ++ b ∷ [] };
      lent = before ++ after;
      served = s.served;
      queue = [];
    })
free-IsSound s before after b h e f = record {
  queued = free-IsQueue s.pool [] (s.pool.free ++ b ∷ []) (rw f at h.queued);
  delivered = rw f at h.delivered;
  owned = λ a. ground (
    arith,
    h.owned a,
    ap (count a) e,
    count-append a before (b ∷ after),
    count-append a before after,
    count-append a s.pool.free (b ∷ []),
  );
  single = h.single;
  idle = inl refl;
  paid = h.paid;
}

-- The oldest waiter finds the buffer in its node.
wake-Delivered :
    (p : Pool) (b w : ℕ) (ws : List ℕ) (served : List (ℕ × Option ℕ))
    → has w ws ≡ false
    → Delivered p.nodes (w ∷ ws) served
    → Delivered (wake w b p).nodes ws ((w, some b) ∷ served)
wake-Delivered p b w ws served out h = (
  ground arith,
  ground arith,
  out,
  Delivered-kept p.nodes (wake w b p).nodes (w ∷ ws) ws served h
      (λ a among apart. (ground (arith, apart), ground (arith, apart))),
)

pub wake-IsSound :
    (s : Sys) (before after : List ℕ) (b w : ℕ) (ws : List ℕ)
    → IsSound s
    → s.lent ≡ before ++ b ∷ after
    → s.queue ≡ w ∷ ws
    → IsSound (record {
      pool = wake w b s.pool;
      lent = before ++ after;
      served = (w, some b) ∷ s.served;
      queue = ws;
    })
wake-IsSound s before after b w ws h e f =
    let queued = rw f at h.queued in
    record {
      queued = wake-IsQueue b s.pool w ws queued;
      delivered = wake-Delivered s.pool b w ws s.served queued.chain.1 (rw f at h.delivered);
      owned = λ a. ground (
        arith,
        h.owned a,
        ap (count a) e,
        count-append a before (b ∷ after),
        count-append a before after,
      );
      single = h.single;
      idle = ground (arith, h.idle);
      paid = h.paid;
    }

pub leaves-IsSound :
    (s : Sys) (before after : List (ℕ × Option ℕ)) (self : ℕ) (o got : Option ℕ) (q : Pool)
    → IsSound s
    → s.served ≡ before ++ (self, o) ∷ after
    → leave self s.pool ≡ some (got, q)
    → IsSound (record {
      pool = q;
      lent = taken_along got s.lent;
      served = before ++ after;
      queue = s.queue;
    })
unfolding leave
leaves-IsSound s before after self o got q h f e =
    let same : q ≡ record (s.pool) { inflight = (s.pool.inflight + word32 - 1) % word32 } =
      ground arith in
    let taken : got ≡ (s.pool.nodes self).buf = ground arith in
    let (own, rest) =
      Delivered-leave s.pool.nodes s.queue before after self o (rw f at h.delivered) in
    rw (same, taken ∙ own)
      (record {
        queued = record {
          chain = h.queued.chain;
          tail = h.queued.tail;
          count = h.queued.count;
          small = h.queued.small;
        };
        delivered = rest;
        owned = λ a. omega (
          arith,
          h.owned a,
          count-given a before after self o s.lent,
          ap (λ served. count a (given served)) f,
        );
        single = h.single;
        idle = h.idle;
        paid = h.paid;
      })

pub stops-IsSound :
    (s : Sys) (q : Pool)
    → IsSound s
    → stop_waiters s.pool ≡ some q
    → IsSound (record { pool = q; lent = s.lent; served = nulls s.queue ++ s.served; queue = [] })
stops-IsSound s q h e =
    let (r, f, stopping, empty, served, others, free, all, budget, size, log) =
      stop_waiters_lem s.pool s.queue h.queued in
    subst
      (λ x.
        IsSound
          (record { pool = x; lent = s.lent; served = nulls s.queue ++ s.served; queue = [] }))
      (some_eq (sym f ∙ e))
      (record {
        queued = empty;
        delivered = Delivered-nulls r.nodes s.queue s.served served (
            Delivered-kept s.pool.nodes r.nodes s.queue [] s.served h.delivered
              (λ w among out. (others w out, refl)));
        owned = λ a. rw (free, all, given-nulls s.queue s.served) (h.owned a);
        single = λ a. rw all (h.single a);
        idle = inl refl;
        paid = rw (all, budget, size) h.paid;
      })

pub reuses-IsSound :
    (s : Sys) (a : ℕ) (v : Waiter)
    → IsSound s
    → has a s.queue ≡ false
    → is_served a s.served ≡ false
    → IsSound (record s { pool = record (s.pool) { nodes = update s.pool.nodes a v } })
reuses-IsSound s a v h out gone = record {
  queued = record {
    chain = Chain-update s.pool.nodes a v s.pool.wait_head s.queue out h.queued.chain;
    tail = h.queued.tail;
    count = h.queued.count;
    small = h.queued.small;
  };
  delivered = Delivered-update s.pool.nodes a v s.queue s.served gone h.delivered;
  owned = h.owned;
  single = h.single;
  idle = h.idle;
  paid = h.paid;
}
