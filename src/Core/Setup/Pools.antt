-- ===== src/Core/Setup/Pools.antt =====
-- The pool that init_buffer_pool of engine/p8_core.cpp leaves.
use p.Prelude.{
  ltb, if◌then◌else◌, ℕ, zero, suc, ◌+◌, ◌*◌, ◌/◌, ◌≤◌, ◌<◌, ◌≡◌, refl, sym, ap, ◌∙◌, inl, inr,
  Bool, true, false, Option, none, some, List, [], ◌∷◌, ◌++◌, length, arith, min,
}
use mathlib.Core.List.{append_assoc, append-nil}
use mathlib.Core.Path.{subst}
use p.Kit.{Lst}
use p.Budget
use p.Budget.{Budget, word}
use p.Budget.Loop.{try_reserve_lem}
use p.Pool
use p.Pool.{Waiter, Pool, grow, init_loop, init}
use p.Core.Setup.{CText, data_buffer_size, rounds, set_up, size_or, init_buffer_pool}

length-rounds : (addresses : ℕ → ℕ) (i n : ℕ) → length (rounds addresses i n) ≡ n
length-rounds addresses i zero = refl
length-rounds addresses i (suc n) = ap suc (length-rounds addresses (i + 1) n)

module _ (K : Lst) where
  -- A buffer that fits under the cap and that new gives.
  grow_fits :
      (p : Pool) (b : Budget) (a : ℕ)
      → p.budget ≡ some b
      → b.max < word
      → b.used + p.buffer_size ≤ b.max
      → grow K (some a) p ≡ (
        true,
        record p {
          all = p.all ++ a ∷ [];
          free = p.free ++ a ∷ [];
          budget = some (record b { used = b.used + p.buffer_size });
        },
      )
  unfolding grow
  grow_fits p b a e small fits = elim (try_reserve_lem b p.buffer_size small) [
    | inl (room, f) ↦ ground (arith, f, K.push_last_appends p.free a, K.push_last_appends p.all a)
    | inr (over, f) ↦ absurd (omega arith)
  ]

  -- The pool with n more buffers.
  abbrev with_buffers : (ℕ → ℕ) → ℕ → ℕ → Budget → Pool → Pool
  with_buffers addresses i n b p = record p {
    all = p.all ++ rounds addresses i n;
    free = p.free ++ rounds addresses i n;
    budget = some (record b { used = b.used + data_buffer_size * n });
  }

  init_loop_fits :
      (addresses : ℕ → ℕ) (n i k : ℕ) (p : Pool) (b : Budget)
      → p.budget ≡ some b
      → p.buffer_size ≡ data_buffer_size
      → b.max < word
      → b.used + data_buffer_size * n ≤ b.max
      → (init_loop K (rounds (λ j. some (addresses j)) i n) p k).1 ≡ with_buffers addresses i n b p
  unfolding init_loop
  init_loop_fits addresses zero i k p b e size small fits =
      ground (arith, append-nil p.all, append-nil p.free, e)
  init_loop_fits addresses (suc n) i k p b e size small fits =
      let a = addresses i in
      let b' = record b { used = b.used + p.buffer_size } in
      let q = record p { all = p.all ++ a ∷ []; free = p.free ++ a ∷ []; budget = some b' } in
      let next : Bool × Pool → Pool = λ r.
        (if r.0
          then init_loop K (rounds (λ j. some (addresses j)) (i + 1) n) r.1 (k + 1)
          else (k, r.1)).1 in
      ap next (grow_fits p b a e small (omega (arith, size)))
      ∙ init_loop_fits addresses n (i + 1) (k + 1) q b' refl size small (omega (arith, size))
      ∙ ground (
        arith,
        append_assoc p.all (a ∷ []) (rounds addresses (i + 1) n),
        append_assoc p.free (a ∷ []) (rounds addresses (i + 1) n),
        size,
      )

-- A pool that is prepared with a cap and the memory to reserve: no waiter, as many free buffers as
-- fit into both, in the order in which they were made, and the budget charged with exactly these.
abbrev pub IsPrepared : ℕ → ℕ → (ℕ → ℕ) → Option Pool → Type 0
IsPrepared max initial addresses r =
    let n = min max initial / data_buffer_size in
    (p : Pool) × (r ≡ some p)
    × (p.buffer_size ≡ data_buffer_size)
    × (p.free ≡ rounds addresses 0 n)
    × (p.all ≡ rounds addresses 0 n)
    × (length p.free ≡ n)
    × (p.budget ≡ some (record { used = data_buffer_size * n; max = max }))
    × (data_buffer_size * n ≤ max)
    × (p.wait_head ≡ none)
    × (p.stopping ≡ false)

set_up-IsPrepared :
    (K : Lst) (max initial : ℕ) (addresses : ℕ → ℕ) (nodes : ℕ → Waiter)
    → max < word
    → IsPrepared max initial addresses
        (set_up K true true (λ j. some (addresses j)) nodes (some max) (some initial))
unfolding set_up init Pool.create Budget.create
set_up-IsPrepared K max initial addresses nodes small =
    let n = min max initial / data_buffer_size in
    let b : Budget = record { used = 0; max = max } in
    let p = Pool.create data_buffer_size (some b) nodes in
    let memory : ℕ → Option ℕ = λ j. some (addresses j) in
    let least : (if ltb max initial then max else initial) ≡ min max initial = ground arith in
    let fits : data_buffer_size * n ≤ max = omega arith in
    (
      with_buffers K addresses 0 n b p,
      ap (λ m. some (init K (rounds memory 0 (m / data_buffer_size)) p).1) least
          ∙ ap some (init_loop_fits K addresses n 0 0 p b refl refl small (omega (arith, fits))),
      refl,
      refl,
      refl,
      length-rounds addresses 0 n,
      ap (λ u. some (record { used = u; max = max })) (omega arith),
      fits,
      refl,
      refl,
    )

-- With sizes that can be read, or are left out, a cap below 2^64, and where memory suffices,
-- init_buffer_pool leaves a pool of buffers of 8192 bytes without waiters. It holds as many free
-- buffers as fit both into the cap and into the memory to reserve, in the order in which they were
-- made, and the budget has the cap and is charged with exactly these.
pub init_buffer_pool-IsPrepared :
    (T : CText) (K : Lst) (max_text initial_text : Option (List ℕ)) (max initial : ℕ)
    (addresses : ℕ → ℕ) (nodes : ℕ → Waiter)
    → size_or T 16777216 max_text ≡ some max
    → size_or T 1048576 initial_text ≡ some initial
    → max < word
    → IsPrepared max initial addresses
        (init_buffer_pool T K max_text initial_text true true (λ j. some (addresses j)) nodes)
unfolding init_buffer_pool
init_buffer_pool-IsPrepared T K max_text initial_text max initial addresses nodes e f small =
    let memory : ℕ → Option ℕ = λ j. some (addresses j) in
    subst
      (λ o.
        IsPrepared max initial addresses
          (set_up K true true memory nodes o (size_or T 1048576 initial_text)))
      (sym e)
      (subst (λ o. IsPrepared max initial addresses (set_up K true true memory nodes (some max) o))
        (sym f) (set_up-IsPrepared K max initial addresses nodes small))
