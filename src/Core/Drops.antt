-- ===== src/Core/Drops.antt =====
-- engine/p8_core.cpp, poll_dropped_stats, accumulate_dropped and get_dropped_stats, and
-- engine/p8_tls_writer.cpp, pull_dropped: the counters of what the threads had to drop. The counters
-- of each writer are given in the order of the registry.
pub mod Totals
use p.Prelude.{ℕ, ◌+◌, ◌%◌, List, [], ◌∷◌}
use p.Budget.{word}

-- s_p8_drop_stats
pub record DropStats : Type 0 where
  pub logs : ℕ
  pub metrics : ℕ
  pub traces : ℕ
  pub svc : ℕ

-- mu_dropped_logs, mu_dropped_metrics and mu_dropped_traces of a writer.
pub record Dropped : Type 0 where
  pub logs : ℕ
  pub metrics : ℕ
  pub traces : ℕ

-- The counters read, and those left behind.
unfoldable pub pull_dropped : Dropped → DropStats × Dropped
pull_dropped d = (
  record { logs = d.logs; metrics = d.metrics; traces = d.traces; svc = 0 },
  record { logs = 0; metrics = 0; traces = 0 },
)

-- The loop over the writers, from the sum reached before.
unfoldable pub sum_dropped : List Dropped → DropStats → DropStats × List Dropped
unfolding pull_dropped
sum_dropped [] sum = (sum, [])
sum_dropped (w ∷ writers) sum =
    let (pulled, left) = pull_dropped w in
    let (total, rest) = sum_dropped writers (record sum {
      logs = (sum.logs + pulled.logs) % word;
      metrics = (sum.metrics + pulled.metrics) % word;
      traces = (sum.traces + pulled.traces) % word;
    }) in
    (total, left ∷ rest)

-- What the core has counted: its own mu_dropped_svc stays as it is.
unfoldable pub accumulate_dropped : DropStats → DropStats → DropStats
accumulate_dropped stats core = record core {
  logs = (core.logs + stats.logs) % word;
  metrics = (core.metrics + stats.metrics) % word;
  traces = (core.traces + stats.traces) % word;
}

unfoldable pub poll_dropped_stats : List Dropped → DropStats → DropStats × List Dropped
unfolding sum_dropped accumulate_dropped
poll_dropped_stats writers core =
    let (sum, left) = sum_dropped writers (record { logs = 0; metrics = 0; traces = 0; svc = 0 }) in
    (accumulate_dropped sum core, left)

unfoldable pub get_dropped_stats : DropStats → DropStats
get_dropped_stats core = core
