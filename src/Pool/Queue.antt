-- ===== src/Pool/Queue.antt =====
-- The intrusive waiter queue of the pool (mp_wait_head, mp_wait_tail, s_waiter::mp_next) as a list.
use p.Prelude.{
  ℕ, suc, ◌<◌, ◌≡◌, refl, sym, ◌∙◌, Bool, true, false, ◌||◌, Option, none, some, List, [], ◌∷◌,
  ◌++◌, arith, ◌==◌, length, length-append,
}
use p.Pool.{
  Waiter, Pool, update, word32, park, try_handoff_no_lock, new_waiter, link_tail, link_head,
  cut_tail, hand_to,
}

abbrev pub has : ℕ → List ℕ → Bool
has a [] = false
has a (x ∷ xs) = (a == x) || has a xs

abbrev pub last : List ℕ → Option ℕ
last [] = none
last (x ∷ []) = some x
last (x ∷ y ∷ xs) = last (y ∷ xs)

-- From `start` the next pointers lead through the distinct, unserved waiters `ws` to null.
abbrev pub Chain : (ℕ → Waiter) → Option ℕ → List ℕ → Type 0
Chain nodes start [] = start ≡ none
Chain nodes start (w ∷ ws) =
    (start ≡ some w) × (has w ws ≡ false) × ((nodes w).done ≡ false) × Chain nodes (nodes w).next ws

pub record IsQueue (p : Pool) (ws : List ℕ) : Type 0 where
  pub chain : Chain p.nodes p.wait_head ws
  pub tail : p.wait_tail ≡ last ws
  pub count : p.wait_count ≡ length ws
  pub small : length ws < word32

pub Chain-update :
    (nodes : ℕ → Waiter) (a : ℕ) (v : Waiter) (start : Option ℕ) (ws : List ℕ)
    → has a ws ≡ false
    → Chain nodes start ws
    → Chain (update nodes a v) start ws
Chain-update nodes a v start [] out c = c
Chain-update nodes a v start (w ∷ ws) out c =
    ground (arith, Chain-update nodes a v (nodes w).next ws)

pub has-append_one : (a w : ℕ) (ws : List ℕ) → has a (ws ++ w ∷ []) ≡ (has a ws || (a == w))
has-append_one a w [] = ground arith
has-append_one a w (x ∷ ws) = ground (arith, has-append_one a w ws)

pub last-append_one : (w : ℕ) (ws : List ℕ) → last (ws ++ w ∷ []) ≡ some w
last-append_one w [] = refl
last-append_one w (x ∷ []) = refl
last-append_one w (x ∷ y ∷ ws) = last-append_one w (y ∷ ws)

pub last-has : (t x : ℕ) (ws : List ℕ) → last (x ∷ ws) ≡ some t → has t (x ∷ ws) ≡ true
last-has t x [] e = ground arith
last-has t x (y ∷ ws) e = ground (arith, last-has t y ws e)

-- The last node of a chain takes a successor.
Chain-append :
    (nodes : ℕ → Waiter) (self t : ℕ) (start : Option ℕ) (w : ℕ) (ws : List ℕ)
    → has self (w ∷ ws) ≡ false
    → (nodes self).next ≡ none
    → (nodes self).done ≡ false
    → last (w ∷ ws) ≡ some t
    → Chain nodes start (w ∷ ws)
    → Chain (update nodes t (record (nodes t) { next = some self })) start (w ∷ ws ++ self ∷ [])
Chain-append nodes self t start w [] out end new e c = ground arith
Chain-append nodes self t start w (x ∷ ws) out end new e c = ground (
  arith,
  last-has t x ws e,
  has-append_one w self ws,
  Chain-append nodes self t (nodes w).next x ws,
)

last-cons : (w : ℕ) (ws : List ℕ) → (t : ℕ) × (last (w ∷ ws) ≡ some t)
last-cons w [] = (w, refl)
last-cons w (x ∷ ws) = last-cons x ws

Chain-link :
    (nodes : ℕ → Waiter) (self : ℕ) (tail start : Option ℕ) (w : ℕ) (ws : List ℕ)
    → has self (w ∷ ws) ≡ false
    → (nodes self).next ≡ none
    → (nodes self).done ≡ false
    → tail ≡ last (w ∷ ws)
    → Chain nodes start (w ∷ ws)
    → Chain (link_tail nodes self tail) (link_head self tail start) (w ∷ ws ++ self ∷ [])
Chain-link nodes self none start w ws out end new e c =
    let (t, f) = last-cons w ws in absurd (cc (e ∙ f))
Chain-link nodes self (some t) start w ws out end new e c =
    Chain-append nodes self t start w ws out end new (sym e) c

-- A node that is not queued joins the intrusive queue at its end, if the count of waiters has
-- room.
pub park-IsQueue :
    (p : Pool) (self : ℕ) (ws : List ℕ)
    → IsQueue p ws
    → has self ws ≡ false
    → suc (length ws) < word32
    → IsQueue (park self p) (ws ++ self ∷ [])
unfolding park
park-IsQueue p self [] q out room = ground arith
park-IsQueue p self (w ∷ ws) q out room = record {
  chain =
      Chain-link (update p.nodes self (new_waiter p.cv_next)) self p.wait_tail p.wait_head w ws out
        (ground arith) (ground arith) q.tail
        (Chain-update p.nodes self (new_waiter p.cv_next) p.wait_head (w ∷ ws) out q.chain);
  tail = sym (last-append_one self (w ∷ ws));
  count = ground (arith, length-append ws (self ∷ []));
  small = ground (arith, length-append ws (self ∷ []));
}

cut_tail-last :
    (nodes : ℕ → Waiter) (start : Option ℕ) (w : ℕ) (ws : List ℕ)
    → Chain nodes start ws
    → cut_tail start (last (w ∷ ws)) ≡ last ws
cut_tail-last nodes start w [] c = ground arith
cut_tail-last nodes start w (x ∷ ws) c = ground arith

-- A hand-off serves the oldest waiter of a queue that is not empty, and the others stay queued in
-- their order.
pub try_handoff_no_lock-cons :
    (p : Pool) (b w : ℕ) (ws : List ℕ)
    → IsQueue p (w ∷ ws)
    → (try_handoff_no_lock b p ≡ some (some (p.nodes w).cv, hand_to w b p))
      × IsQueue (hand_to w b p) ws
unfolding try_handoff_no_lock
try_handoff_no_lock-cons p b w ws h = (
  ground arith,
  record {
    chain =
        Chain-update p.nodes w (record (p.nodes w) { buf = some b; done = true }) (p.nodes w).next
          ws (ground arith) (ground arith);
    tail = ground (arith, cut_tail-last p.nodes (p.nodes w).next w ws);
    count = ground arith;
    small = ground arith;
  },
)

pub try_handoff_no_lock-nil :
    (p : Pool) (b : ℕ) → IsQueue p [] → try_handoff_no_lock b p ≡ some (none, p)
unfolding try_handoff_no_lock
try_handoff_no_lock-nil p b h = ground arith

-- The nodes after null was served to each of ws.
abbrev pub stopped : (ℕ → Waiter) → List ℕ → ℕ → Waiter
stopped nodes [] = nodes
stopped nodes (w ∷ ws) = stopped (update nodes w (record (nodes w) { buf = none; done = true })) ws
