-- ===== src/Core/Buffers/Pressure.antt =====
-- The wake of the worker under memory pressure.
use native.Mathlib.Nat.{le-div_iff_mul-le}
use p.Budget.{Budget, word}
use p.Prelude.{
  ◌∙◌, ◌-◌, ◌*◌, ◌%◌, ◌/◌, ◌<◌, ◌≤◌, ◌&&◌, ltb, length, ℕ, ◌+◌, ◌≡◌, refl, sym, ap, ◌⊎◌, inl, inr,
  Bool, true, false, Option, none, some, not, if◌then◌else◌, arith, Bool-cases,
}
use mathlib.Core.Path.{subst}
use p.Kit.{Lst}
use p.Pool.{Pool, Entry, returned, max_size_of, acquire_no_lock, stat}
use p.Core.Buffers.{Buffers, notify, notify_pressure, under_pressure, taken, acquire_buffer}

-- From c to d the worker is woken at most once, and exactly if its wake was not pending and is now.
abbrev pub IsDebounced : Buffers → Buffers → Type 0
IsDebounced c d =
    ((d.wake_pending ≡ c.wake_pending) × (d.wakes ≡ c.wakes))
    ⊎ ((c.wake_pending ≡ false) × (d.wake_pending ≡ true) × (d.wakes ≡ c.wakes + 1))

notify_pressure-IsDebounced :
    (c : Buffers) → IsDebounced c (notify_pressure c) × ((notify_pressure c).wake_pending ≡ true)
unfolding notify_pressure notify
notify_pressure-IsDebounced c = ground arith

notify_pressure-pool : (c : Buffers) → (notify_pressure c).pool ≡ c.pool
unfolding notify_pressure notify
notify_pressure-pool c = ground arith

-- The bytes of the buffers outside a pool, and its cap: that of its budget, or else all that it has
-- allocated; size_t wraps around.
abbrev pub lent_bytes : Pool → ℕ
lent_bytes p = (length p.all + word - length p.free) % word * p.buffer_size % word

abbrev pub cap_of : ℕ → Option Budget → ℕ
cap_of allocated none = allocated % word
cap_of allocated (some b) = b.max

-- At least 75 percent of a cap is free. Without a cap there is always enough; more bytes outside
-- than the cap leave none free.
abbrev pub IsAmple : Pool → Type 0
IsAmple p =
    let limit = cap_of (length p.all * p.buffer_size) p.budget in
    (limit ≡ 0) ⊎ (75 * limit ≤ (limit - lent_bytes p) * 100 % word)

-- The test of the quotient is one of the product.
relieved :
    (limit free : ℕ)
    → (ltb 0 limit && ltb (free / limit) 75) ≡ false
    → (limit ≡ 0) ⊎ (75 * limit ≤ free)
relieved limit free e = elim (Bool-cases (ltb 0 limit)) [
  | inl some_cap ↦
      let positive : 0 < limit = ground (arith, some_cap) in
      let high : 75 ≤ free / limit = ground (arith, e, some_cap) in
      inr ((le-div_iff_mul-le {k = limit} {x = 75} {y = free} positive).0 high)
  | inr no_cap ↦ inl (ground (arith, no_cap))
]

strained :
    (limit free : ℕ)
    → (ltb 0 limit && ltb (free / limit) 75) ≡ true
    → ¬ ((limit ≡ 0) ⊎ (75 * limit ≤ free))
strained limit free e (inl no_cap) = ground (arith, e, no_cap)
strained limit free e (inr enough) =
    let positive : 0 < limit = ground (arith, e) in
    let high = (le-div_iff_mul-le {k = limit} {x = 75} {y = free} positive).1 enough in
    ground (arith, e, high)

-- The test of the program, on the memory of the pool.
abbrev is_short : ℕ → ℕ → Bool
is_short limit lent = ltb 0 limit && ltb ((limit - lent) * 100 % word / limit) 75

left_of : (limit lent : ℕ) → (if ltb lent limit then limit - lent else 0) ≡ limit - lent
left_of limit lent = ground arith

limit_is :
    (allocated : ℕ) (o : Option Budget) → max_size_of (allocated % word) o ≡ cap_of allocated o
limit_is allocated none = refl
limit_is allocated (some b) = refl

under_pressure-stat :
    (K : Lst) (p : Pool)
    → under_pressure (stat K p)
      ≡ is_short (cap_of (length p.all * p.buffer_size) p.budget) (lent_bytes p)
unfolding under_pressure stat
under_pressure-stat K p =
    let limit = cap_of (length p.all * p.buffer_size) p.budget in
    rw (K.size_counts p.all, K.size_counts p.free)
      (rw (limit_is (length p.all * p.buffer_size) p.budget) (
        ap (λ free. ltb 0 limit && ltb (free * 100 % word / limit) 75)
          (left_of limit (lent_bytes p))))

-- What a call of acquire_buffer brings about, whose first attempt got `got`. The worker is woken at
-- most once. Its wake is pending in the end, unless the call returns null to a caller that does not
-- want to wait, or leaves enough free; a call whose first attempt got a buffer and that leaves
-- enough free does not wake it.
abbrev pub IsWoken : Bool → Buffers → Option ℕ → Entry × Buffers → Type 0
IsWoken wait c got r =
    IsDebounced c r.1
    × ((r.1.wake_pending ≡ true) ⊎ ((r.0 ≡ returned none) × (wait ≡ false)) ⊎ IsAmple r.1.pool)
    × ((got ≡ none) ⊎ (¬ IsAmple r.1.pool) ⊎ (r.1.wakes ≡ c.wakes))

taken-IsWoken :
    (K : Lst) (wait : Bool) (self : ℕ) (again got : Option ℕ) (c : Buffers)
    → IsWoken wait c got (taken K wait self again got c)
unfolding taken
taken-IsWoken K wait self again (some b) c = elim (Bool-cases (under_pressure (stat K c.pool))) [
  | inl low ↦
      let n = notify_pressure-IsDebounced c in
      let short = strained _ _ (sym (under_pressure-stat K c.pool) ∙ low) in
      let strict = subst (λ p. ¬ IsAmple p) (sym (notify_pressure-pool c)) short in
      rw low (n.0, inl n.1, inr (inl strict))
  | inr high ↦
      let enough = relieved _ _ (sym (under_pressure-stat K c.pool) ∙ high) in
      rw high (inl (refl, refl), inr (inr enough), inr (inr refl))
]
taken-IsWoken K false self again none c = (inl (refl, refl), inr (inl (refl, refl)), inl refl)
taken-IsWoken K true self again none c =
    let n = notify_pressure-IsDebounced c in (n.0, inl n.1, inl refl)

acquire_buffer_ready :
    (K : Lst) (wait : Bool) (self : ℕ) (answer again : Option ℕ) (c : Buffers)
    → c.initialized ≡ true
    → let got = acquire_no_lock K answer c.pool in
      acquire_buffer K wait self answer again c
      ≡ taken K wait self again got.0 (record c { pool = got.1 })
unfolding acquire_buffer
acquire_buffer_ready K wait self answer again c ready =
    let got = acquire_no_lock K answer c.pool in
    ap
      (λ i.
        if not i
        then (returned none, c)
        else taken K wait self again got.0 (record c { pool = got.1 }))
      ready

-- On an initialised core, acquire_buffer wakes the worker at most once, and only if no wake was
-- pending, and not where its first attempt gets a buffer and at least 75 percent of the cap is
-- free then. A wake is pending when it ends, or is about to wait, unless it returns null to a
-- caller that does not want to wait, or at least 75 percent of the cap is free then. What is free
-- is computed modulo 2^64, and a cap of 0 counts as free.
pub acquire_buffer-IsWoken :
    (K : Lst) (wait : Bool) (self : ℕ) (answer again : Option ℕ) (c : Buffers)
    → c.initialized ≡ true
    → IsWoken wait c (acquire_no_lock K answer c.pool).0 (acquire_buffer K wait self answer again c)
acquire_buffer-IsWoken K wait self answer again c ready =
    let got = acquire_no_lock K answer c.pool in
    subst (IsWoken wait c got.0) (sym (acquire_buffer_ready K wait self answer again c ready))
      (taken-IsWoken K wait self again got.0 (record c { pool = got.1 }))
