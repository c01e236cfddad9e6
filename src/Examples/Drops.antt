-- ===== src/Examples/Drops.antt =====
-- Two writers with drops, polled by a core that has counted some before.
use p.Prelude.{List, [], ◌∷◌}
use p.Core.Drops.{DropStats, Dropped, poll_dropped_stats}
use p.Core.Drops.Totals.{IsMoved, poll_dropped_stats-IsMoved}

abbrev writers : List Dropped
writers =
    record { logs = 3; metrics = 0; traces = 0 } ∷ record { logs = 4; metrics = 1; traces = 0 } ∷ []

abbrev counted : DropStats
counted = record { logs = 10; metrics = 0; traces = 0; svc = 2 }

poll_dropped_stats-IsMoved_example : IsMoved writers counted (poll_dropped_stats writers counted)
poll_dropped_stats-IsMoved_example = poll_dropped_stats-IsMoved writers counted
