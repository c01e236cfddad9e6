-- ===== src/Pool/Served.antt =====
-- The waiters that were served and have not left acquire_wait yet: what their nodes hold.
use p.Prelude.{
  ℕ, ◌+◌, ◌≡◌, refl, ap, Bool, true, false, ◌||◌, Option, none, some, List, [], ◌∷◌, ◌++◌, ◌==◌,
  arith, count, sym, ◌∙◌, inl, inr, Bool-cases, ==_iff,
}
use p.Pool.{Waiter, Pool, update, park, link_tail, new_waiter}
use p.Pool.Queue.{has, last, IsQueue, last-has, has-append_one}

-- The buffers that were handed to these waiters; a waiter that was served null got none.
abbrev pub given : List (ℕ × Option ℕ) → List ℕ
given [] = []
given ((w, none) ∷ served) = given served
given ((w, some b) ∷ served) = b ∷ given served

abbrev pub is_served : ℕ → List (ℕ × Option ℕ) → Bool
is_served a [] = false
is_served a ((w, o) ∷ served) = (a == w) || is_served a served

-- Every served waiter finds its buffer, or null, in its node with the mark set, and is not queued.
abbrev pub Delivered : (ℕ → Waiter) → List ℕ → List (ℕ × Option ℕ) → Type 0
Delivered nodes queue [] = Unit
Delivered nodes queue ((w, o) ∷ served) =
    ((nodes w).buf ≡ o)
    × ((nodes w).done ≡ true)
    × (has w queue ≡ false)
    × Delivered nodes queue served

-- The nodes of the served waiters are not written, and none of them is queued again.
pub Delivered-kept :
    (nodes new : ℕ → Waiter) (queue later : List ℕ) (served : List (ℕ × Option ℕ))
    → Delivered nodes queue served
    → ((w : ℕ)
        → is_served w served ≡ true
        → has w queue ≡ false
        → (new w ≡ nodes w) × (has w later ≡ false))
    → Delivered new later served
Delivered-kept nodes new queue later [] h kept = tt
Delivered-kept nodes new queue later ((w, o) ∷ served) (buf, done, out, h) kept =
    let (same, apart) = kept w (ground arith) out in
    (
      ap (λ (n : Waiter). n.buf) same ∙ buf,
      ap (λ (n : Waiter). n.done) same ∙ done,
      apart,
      Delivered-kept nodes new queue later served h (λ a among. kept a (ground (arith, among))),
    )

pub Delivered-update :
    (nodes : ℕ → Waiter) (a : ℕ) (v : Waiter) (queue : List ℕ) (served : List (ℕ × Option ℕ))
    → is_served a served ≡ false
    → Delivered nodes queue served
    → Delivered (update nodes a v) queue served
Delivered-update nodes a v queue [] out h = tt
Delivered-update nodes a v queue ((w, o) ∷ served) out h =
    ground (arith, Delivered-update nodes a v queue served)

-- What a served waiter takes along, and what stays.
pub Delivered-leave :
    (nodes : ℕ → Waiter) (queue : List ℕ) (before after : List (ℕ × Option ℕ)) (self : ℕ)
    (o : Option ℕ)
    → Delivered nodes queue (before ++ (self, o) ∷ after)
    → ((nodes self).buf ≡ o) × Delivered nodes queue (before ++ after)
Delivered-leave nodes queue [] after self o (buf, done, out, h) = (buf, h)
Delivered-leave nodes queue ((w, x) ∷ before) after self o (buf, done, out, h) =
    let (own, rest) = Delivered-leave nodes queue before after self o h in
    (own, (buf, done, out, rest))

abbrev pub taken_along : Option ℕ → List ℕ → List ℕ
taken_along none lent = lent
taken_along (some b) lent = b ∷ lent

pub count-given :
    (a : ℕ) (before after : List (ℕ × Option ℕ)) (self : ℕ) (o : Option ℕ) (lent : List ℕ)
    → count a (taken_along o lent) + count a (given (before ++ after))
      ≡ count a lent + count a (given (before ++ (self, o) ∷ after))
count-given a [] after self none lent = refl
count-given a [] after self (some b) lent = ground arith
count-given a ((w, none) ∷ before) after self o lent = count-given a before after self o lent
count-given a ((w, some b) ∷ before) after self o lent =
    ground (arith, count-given a before after self o lent)

-- The waiters that a stop serves.
abbrev pub nulls : List ℕ → List (ℕ × Option ℕ)
nulls [] = []
nulls (w ∷ ws) = (w, none) ∷ nulls ws

pub given-nulls :
    (ws : List ℕ) (served : List (ℕ × Option ℕ)) → given (nulls ws ++ served) ≡ given served
given-nulls [] served = refl
given-nulls (w ∷ ws) served = given-nulls ws served

pub Delivered-nulls :
    (nodes : ℕ → Waiter) (ws : List ℕ) (served : List (ℕ × Option ℕ))
    → ((a : ℕ) → has a ws ≡ true → ((nodes a).buf ≡ none) × ((nodes a).done ≡ true))
    → Delivered nodes [] served
    → Delivered nodes [] (nulls ws ++ served)
Delivered-nulls nodes [] served stop h = h
Delivered-nulls nodes (w ∷ ws) served stop h =
    let (buf, done) = stop w (ground arith) in
    (buf, done, refl, Delivered-nulls nodes ws served (λ a among. stop a (ground (arith, among))) h)

-- A waiter that parks writes its own node and that of the last in the queue.
link-other :
    (nodes : ℕ → Waiter) (self a : ℕ) (v : Waiter) (tail : Option ℕ) (ws : List ℕ)
    → tail ≡ last ws
    → has a ws ≡ false
    → (a == self) ≡ false
    → link_tail (update nodes self v) self tail a ≡ nodes a
link-other nodes self a v none ws e out other = ground arith
link-other nodes self a v (some t) [] e out other = absurd (cc e)
link-other nodes self a v (some t) (w ∷ ws) e out other = ground (arith, last-has t w ws (sym e))

pub Delivered-park :
    (p : Pool) (self : ℕ) (ws : List ℕ) (served : List (ℕ × Option ℕ))
    → IsQueue p ws
    → is_served self served ≡ false
    → Delivered p.nodes ws served
    → Delivered (park self p).nodes (ws ++ self ∷ []) served
unfolding park
Delivered-park p self ws served q out h =
    Delivered-kept p.nodes (park self p).nodes ws (ws ++ self ∷ []) served h (λ w among apart.
      let other : (w == self) ≡ false = elim (Bool-cases (w == self)) [
        | inl e ↦ absurd (cc (sym among ∙ ap (λ a. is_served a served) ((==_iff w self).0 e) ∙ out))
        | inr e ↦ e
      ] in
      (
        link-other p.nodes self w (new_waiter p.cv_next) p.wait_tail ws q.tail apart other,
        ground (arith, has-append_one w self ws, apart, other),
      ))
