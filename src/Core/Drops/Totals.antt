-- ===== src/Core/Drops/Totals.antt =====
-- The drop counters of the writers and of the core, taken together.
use p.Prelude.{ℕ, ◌+◌, ◌%◌, ◌≡◌, refl, List, [], ◌∷◌, All, arith}
use p.Budget.{word}
use p.Core.Drops.{
  DropStats, Dropped, pull_dropped, sum_dropped, accumulate_dropped, poll_dropped_stats,
}

abbrev pub total_of : (Dropped → ℕ) → List Dropped → ℕ
total_of f [] = 0
total_of f (w ∷ writers) = f w + total_of f writers

-- The counters of a writer stand at zero.
abbrev pub IsReset : Dropped → Type 0
IsReset d = (d.logs ≡ 0) × (d.metrics ≡ 0) × (d.traces ≡ 0)

-- The sum has taken over what the writers had counted.
abbrev pub IsMoved : List Dropped → DropStats → DropStats × List Dropped → Type 0
IsMoved writers sum r =
    (r.0.logs % word ≡ (sum.logs + total_of (λ d. d.logs) writers) % word)
    × (r.0.metrics % word ≡ (sum.metrics + total_of (λ d. d.metrics) writers) % word)
    × (r.0.traces % word ≡ (sum.traces + total_of (λ d. d.traces) writers) % word)
    × (r.0.svc ≡ sum.svc)
    × All IsReset r.1

sum_dropped-IsMoved :
    (writers : List Dropped) (sum : DropStats) → IsMoved writers sum (sum_dropped writers sum)
unfolding sum_dropped pull_dropped
sum_dropped-IsMoved [] sum = (omega arith, omega arith, omega arith, refl, tt)
sum_dropped-IsMoved (w ∷ writers) sum =
    let (logs, metrics, traces, svc, reset) = sum_dropped-IsMoved writers (record sum {
      logs = (sum.logs + w.logs) % word;
      metrics = (sum.metrics + w.metrics) % word;
      traces = (sum.traces + w.traces) % word;
    }) in
    (omega arith, omega arith, omega arith, svc, ((refl, refl, refl), reset))

-- A poll moves the counts of all writers to the core: each total of the core grows by what the
-- writers had counted, modulo 2^64, every writer's counters stand at zero after it, and the count
-- of dropped service entries is kept.
pub poll_dropped_stats-IsMoved :
    (writers : List Dropped) (core : DropStats)
    → IsMoved writers core (poll_dropped_stats writers core)
unfolding poll_dropped_stats accumulate_dropped
poll_dropped_stats-IsMoved writers core =
    let none_yet : DropStats = record { logs = 0; metrics = 0; traces = 0; svc = 0 } in
    let (logs, metrics, traces, svc, reset) = sum_dropped-IsMoved writers none_yet in
    (omega arith, omega arith, omega arith, refl, reset)
