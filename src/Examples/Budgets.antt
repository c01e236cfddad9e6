-- ===== src/Examples/Budgets.antt =====
-- The memory budget at a cap of 100 bytes.
use p.Prelude.{ℕ, ◌+◌, ◌≤◌, ◌<◌, ◌≡◌, ◌≢◌, refl, ◌⊎◌, Bool, true, false, [], ◌∷◌, ◌++◌, arith}
use p.Budget.{
  Budget, Round, reserved, refused, retrying, create, try_reserve_loop, no_room, try_reserve,
  release,
}
use p.Budget.Loop.{
  Saw, try_reserve_loop-reserved, try_reserve_loop-refused, try_reserve_loop-ends, try_reserve_lem,
}
use p.Budget.Shared.{Shared, Reach, here, next, reserve, give_back, IsCapped, Reach-IsCapped}

abbrev seen : ℕ → Bool → Round
seen v spurious = record { value = v; spurious = spurious }

abbrev hundred : Budget
hundred = record { used = 0; max = 100 }

abbrev after_both : Shared
after_both = record { budget = record { used = 30; max = 100 }; held = 30 ∷ [] }

-- One thread reserves 40 after a lost race, another 30, and the first gives back.
reserve_and_give_back : Reach (record { budget = create 100; held = [] }) after_both
unfolding create try_reserve_loop no_room release
reserve_and_give_back =
    next
      (next
        (next {t = record { budget = record { used = 0; max = 100 }; held = [] }} here
          (reserve 40 7 (seen 0 false ∷ seen 0 false ∷ []) 40 refl refl))
        (reserve 30 40 (seen 40 false ∷ []) 70 refl refl))
      (give_back (30 ∷ []) [] 40 refl refl)

Reach-IsCapped_example : IsCapped after_both
Reach-IsCapped_example = Reach-IsCapped 100 {s = after_both} (omega arith) reserve_and_give_back

reserves_forty : try_reserve_loop 100 40 7 (seen 0 false ∷ seen 0 false ∷ []) ≡ reserved 0 40
unfolding try_reserve_loop no_room
reserves_forty = refl

try_reserve_loop-reserved_example :
    (40 ≡ 0 + 40) × (40 ≤ 100) × Saw 0 7 (seen 0 false ∷ seen 0 false ∷ [])
try_reserve_loop-reserved_example =
    try_reserve_loop-reserved 100 40 7 (seen 0 false ∷ seen 0 false ∷ []) 0 40 (omega arith)
      reserves_forty

refuses_forty : try_reserve_loop 100 40 7 (seen 70 false ∷ []) ≡ refused
unfolding try_reserve_loop no_room
refuses_forty = refl

try_reserve_loop-refused_example : (v : ℕ) × Saw v 7 (seen 70 false ∷ []) × (100 < v + 40)
try_reserve_loop-refused_example =
    try_reserve_loop-refused 100 40 7 (seen 70 false ∷ []) refuses_forty

try_reserve_loop-ends_example :
    try_reserve_loop 100 40 7 ((seen 3 true ∷ []) ++ seen 9 true ∷ seen 9 false ∷ []) ≢ retrying
try_reserve_loop-ends_example =
    try_reserve_loop-ends 100 40 7 (seen 3 true ∷ []) [] (seen 9 true) (seen 9 false) refl refl

try_reserve_lem_example :
    ((0 + 40 ≤ 100) × (try_reserve hundred 40 ≡ (true, record hundred { used = 0 + 40 })))
    ⊎ ((100 < 0 + 40) × (try_reserve hundred 40 ≡ (false, hundred)))
try_reserve_lem_example = try_reserve_lem hundred 40 (omega arith)
