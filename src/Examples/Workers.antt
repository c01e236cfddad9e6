-- ===== src/Examples/Workers.antt =====
-- A core with one buffer in the ready queue and one writer, in front of a file in memory and of the null
-- sink.
use p.Prelude.{ℕ, ◌≡◌, refl, true, none, some, List, [], ◌∷◌, arith}
use p.Examples.Kit.{lst, MemoryFile, memory_file}
use p.Sink.File.{FileSink, write_data}
use p.Writer.{Fragment, Writer}
use p.Core.Transfer.{Ready, core_push, data_bufs, flush_ready}
use p.Core.Transfer.Handover.{IsPushed, core_push-IsPushed}
use p.Core.Transfer.Sinks.{null_sink, file_sink, packets, IsFlushed, flush_ready-IsFlushed}
use p.Core.Worker.{Signal, stop, wake, Act, submitted, pushed, filled, Station, round, worker_main}
use p.Core.Worker.Rounds.{IsServed, round-IsServed}
use p.Core.Registry.{no_writers}
use p.Core.Registry.History.{Change, started, ended, changed, IsListed, changed-IsListed}
use p.Core.Worker.Shutdown.{IsStopped, worker_main-IsStopped}

abbrev buffer : Fragment
buffer = record {
  packet_type = 1;
  flags = 0;
  size = 26;
  thread_id = 9;
  start_time = 5;
  stop_time = 6;
  body = 7 ∷ 8 ∷ [];
}

abbrev writer : Writer
writer = record {
  thread_id = 9;
  buf_max = 8192;
  fragments = buffer ∷ [];
  buffer = some buffer;
  buf_used = 26;
}

abbrev ready : Ready
ready = record { initialized = true; queue = buffer ∷ []; wakes = 0 }

core_push-IsPushed_example : IsPushed writer ready (core_push lst writer ready)
core_push-IsPushed_example = core_push-IsPushed lst writer ready refl

abbrev station : Station null_sink
station = record {
  ready = ready;
  svc = record { buffers = record { memory = 1 ∷ []; used = 1 } ∷ []; dropped = 0 };
  writers = writer ∷ [];
  counters = record { logs = 1; metrics = 0; traces = 0 } ∷ [];
  totals = record { logs = 0; metrics = 0; traces = 0; svc = 0 };
  wake_pending = true;
  poll_ticks = 10;
  last_ticks = 0;
  sink = record { total = 0 };
  recycled = [];
  recycled_svc = [];
}

round-IsServed_example : IsServed null_sink station (round lst null_sink 20 station)
round-IsServed_example = round-IsServed lst null_sink 20 station refl

abbrev waits : List (Signal × ℕ × List Act)
waits = (wake, 20, submitted buffer ∷ pushed 0 ∷ []) ∷ (stop, 30, filled 0 buffer ∷ []) ∷ []

worker_main-IsStopped_example :
    IsStopped lst null_sink (λ b. b.size) 1 waits station (worker_main lst null_sink waits station)
worker_main-IsStopped_example =
    worker_main-IsStopped lst null_sink (λ b. b.size) waits station refl refl

abbrev file : MemoryFile
file = record { opened = true; bytes = [] }

abbrev sink : FileSink memory_file
sink = record {
  configured = true;
  out_dir = [];
  svc_file = file;
  data_file = file;
  iov_cap = 4;
  counters = record { bytes_written = 0; bytes_dropped = 0; write_errors = 0 };
}

abbrev sent : FileSink memory_file
sent = record sink {
  data_file = record { opened = true; bytes = packets (buffer ∷ buffer ∷ []) };
  counters = record { bytes_written = 52; bytes_dropped = 0; write_errors = 0 };
}

sends : write_data memory_file true (data_bufs (buffer ∷ buffer ∷ [])) sink ≡ some (true, sent)
unfolding write_data
sends = refl

flush_ready-IsFlushed_example :
    IsFlushed lst memory_file
      (buffer ∷ buffer ∷ [])
      sink
      (flush_ready lst (file_sink memory_file true) (buffer ∷ buffer ∷ []) sink)
flush_ready-IsFlushed_example =
    flush_ready-IsFlushed lst memory_file true (buffer ∷ buffer ∷ []) sink sent (refl, (refl, tt))
      (omega arith) sends

abbrev changes : List Change
changes = started 1 ∷ started 2 ∷ started 3 ∷ ended 2 ∷ started 4 ∷ ended 4 ∷ []

changed-IsListed_example :
    IsListed (changed changes (no_writers (λ a. record { next = none; prev = none }))) (3 ∷ 1 ∷ [])
changed-IsListed_example = changed-IsListed (λ a. record { next = none; prev = none }) changes refl
