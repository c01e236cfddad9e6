-- ===== src/Pool/Recycle.antt =====
-- The return of buffers to the waiters and to the free list.
use p.Prelude.{
  ℕ, zero, suc, ◌≡◌, refl, true, false, Option, none, some, List, [], ◌∷◌, ◌++◌, arith, length,
  get_elem?, drop, drop-nil,
}
use mathlib.Core.List.{append-nil, append_assoc}
use p.Kit.{Lst, visit}
use p.Pool.{Pool, hand_to, recycle_locked, recycle_next, recycle_batch}
use p.Pool.Queue.{has, IsQueue, try_handoff_no_lock-cons, try_handoff_no_lock-nil}

abbrev pub wake : ℕ → ℕ → Pool → Pool
wake w b p = record (hand_to w b p) { notified = (p.nodes w).cv ∷ p.notified }

-- The buffers of a batch, without its null pointers.
abbrev pub present : List (Option ℕ) → List ℕ
present [] = []
present (none ∷ bufs) = present bufs
present (some b ∷ bufs) = b ∷ present bufs

-- What a batch does to a pool whose queue is ws.
abbrev pub spread : List ℕ → List ℕ → Pool → Pool
spread [] ws p = p
spread (b ∷ bs) [] p = spread bs [] (record p { free = p.free ++ b ∷ [] })
spread (b ∷ bs) (w ∷ ws) p = spread bs ws (wake w b p)

module _ (K : Lst) where
  pub recycle_locked-nil :
      (b : ℕ) (p : Pool)
      → IsQueue p []
      → recycle_locked K b p ≡ some (record p { free = p.free ++ b ∷ [] })
  unfolding recycle_locked
  recycle_locked-nil b p h =
      ground (arith, try_handoff_no_lock-nil p b h, K.push_last_appends p.free b)

  pub recycle_locked-cons :
      (b : ℕ) (p : Pool) (w : ℕ) (ws : List ℕ)
      → IsQueue p (w ∷ ws)
      → recycle_locked K b p ≡ some (wake w b p)
  unfolding recycle_locked
  recycle_locked-cons b p w ws h = ground (arith, (try_handoff_no_lock-cons p b w ws h).0)

pub wake-IsQueue :
    (b : ℕ) (p : Pool) (w : ℕ) (ws : List ℕ) → IsQueue p (w ∷ ws) → IsQueue (wake w b p) ws
wake-IsQueue b p w ws h =
    let q = (try_handoff_no_lock-cons p b w ws h).1 in
    record { chain = q.chain; tail = q.tail; count = q.count; small = q.small }

pub free-IsQueue :
    (p : Pool) (ws free : List ℕ) → IsQueue p ws → IsQueue (record p { free = free }) ws
free-IsQueue p ws free h = record {
  chain = h.chain;
  tail = h.tail;
  count = h.count;
  small = h.small;
}

module _ (K : Lst) where
  visit-spread :
      (bufs : List (Option ℕ)) (ws : List ℕ) (p : Pool)
      → IsQueue p ws
      → visit (recycle_next K) bufs (some p) ≡ some (spread (present bufs) ws p)
  visit-spread [] ws p h = refl
  visit-spread (none ∷ bufs) ws p h = visit-spread bufs ws p h
  visit-spread (some b ∷ bufs) [] p h =
      rw (recycle_locked-nil K b p h)
        (visit-spread bufs [] (record p { free = p.free ++ b ∷ [] }) (free-IsQueue p [] _ h))
  visit-spread (some b ∷ bufs) (w ∷ ws) p h =
      rw (recycle_locked-cons K b p w ws h)
        (visit-spread bufs ws (wake w b p) (wake-IsQueue b p w ws h))

spread-IsQueue :
    (bs ws : List ℕ) (p : Pool) → IsQueue p ws → IsQueue (spread bs ws p) (drop (length bs) ws)
spread-IsQueue [] ws p h = h
spread-IsQueue (b ∷ bs) [] p h =
    rw (drop-nil (length bs)) at
      (spread-IsQueue bs [] (record p { free = p.free ++ b ∷ [] }) (free-IsQueue p [] _ h))
spread-IsQueue (b ∷ bs) (w ∷ ws) p h = spread-IsQueue bs ws (wake w b p) (wake-IsQueue b p w ws h)

spread-free : (bs ws : List ℕ) (p : Pool) → (spread bs ws p).free ≡ p.free ++ drop (length ws) bs
spread-free [] [] p = simp append-nil
spread-free [] (w ∷ ws) p = simp append-nil
spread-free (b ∷ bs) [] p =
    rw (spread-free bs [] (record p { free = p.free ++ b ∷ [] })) (simp append_assoc)
spread-free (b ∷ bs) (w ∷ ws) p = spread-free bs ws (wake w b p)

spread_other :
    (bs ws : List ℕ) (p : Pool) (a : ℕ) → has a ws ≡ false → (spread bs ws p).nodes a ≡ p.nodes a
spread_other [] ws p a h = refl
spread_other (b ∷ bs) [] p a h = spread_other bs [] (record p { free = p.free ++ b ∷ [] }) a h
spread_other (b ∷ bs) (w ∷ ws) p a h = ground (arith, spread_other bs ws (wake w b p) a)

-- The i-th buffer goes to the i-th waiter.
spread_served :
    (bs ws : List ℕ) (p : Pool) (i w b : ℕ)
    → IsQueue p ws
    → get_elem? ws i ≡ some w
    → get_elem? bs i ≡ some b
    → (((spread bs ws p).nodes w).buf ≡ some b) × (((spread bs ws p).nodes w).done ≡ true)
spread_served [] ws p i w b h e f = cc
spread_served (c ∷ bs) [] p i w b h e f = cc
spread_served (c ∷ bs) (x ∷ ws) p zero w b h e f = ground (arith, spread_other bs ws (wake x c p) x)
spread_served (c ∷ bs) (x ∷ ws) p (suc i) w b h e f =
    spread_served bs ws (wake x c p) i w b (wake-IsQueue c p x ws h) e f

-- A recycled batch serves the waiters in the order in which they queued, the i-th buffer to the
-- i-th waiter; buffers left over go to the end of the free list in order, waiters left over stay
-- queued, null pointers are skipped, no other node is written and no null pointer is read.
pub recycle_batch_lem :
    (K : Lst) (bufs : List (Option ℕ)) (p : Pool) (ws : List ℕ)
    → IsQueue p ws
    → (q : Pool) × (recycle_batch K bufs p ≡ (some q, []))
      × IsQueue q (drop (length (present bufs)) ws)
      × (q.free ≡ p.free ++ drop (length ws) (present bufs))
      × ((i w b : ℕ)
          → get_elem? ws i ≡ some w
          → get_elem? (present bufs) i ≡ some b
          → ((q.nodes w).buf ≡ some b) × ((q.nodes w).done ≡ true))
      × ((a : ℕ) → has a ws ≡ false → q.nodes a ≡ p.nodes a)
unfolding recycle_batch
recycle_batch_lem K bufs p ws h = (
  spread (present bufs) ws p,
  returns bufs h,
  spread-IsQueue (present bufs) ws p h,
  spread-free (present bufs) ws p,
  λ i w b. spread_served (present bufs) ws p i w b h,
  spread_other (present bufs) ws p,
)
  where
    returns :
        (bufs : List (Option ℕ))
        → IsQueue p ws
        → recycle_batch K bufs p ≡ (some (spread (present bufs) ws p), [])
    returns [] h = ground (arith, K.size_counts {A = Option ℕ} [])
    returns (b ∷ bufs) h = ground (
      arith,
      K.size_counts (b ∷ bufs),
      K.clear_visits (recycle_next K) (b ∷ bufs) (some p),
      visit-spread K (b ∷ bufs) ws p h,
    )
