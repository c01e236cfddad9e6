-- ===== src/Examples/Sinks.antt =====
-- A batch of two buffers, sent to a file in memory.
use p.Prelude.{◌≡◌, refl, true, some, List, [], ◌∷◌, ◌++◌, arith}
use p.Kit.{total_size, gather}
use p.Examples.Kit.{MemoryFile, memory_file}
use p.Sink.{DataBuf}
use p.Sink.File.{
  FileSink, Counters, data_iovecs, write_entries, write_data, grow_iov, write_loop, chunk_size,
  account,
}
use p.Sink.File.Accounting.{IsAccounted, write_entries-IsAccounted}
use p.Sink.File.Contents.{write_data-contents}

abbrev first_buf : DataBuf
first_buf = record { size = 3; memory = 10 ∷ 11 ∷ 12 ∷ 99 ∷ [] }

abbrev second_buf : DataBuf
second_buf = record { size = 2; memory = 20 ∷ 21 ∷ [] }

abbrev bufs : List DataBuf
bufs = first_buf ∷ second_buf ∷ []

abbrev file : MemoryFile
file = record { opened = true; bytes = 5 ∷ [] }

abbrev no_counts : Counters
no_counts = record { bytes_written = 0; bytes_dropped = 0; write_errors = 0 }

write_entries-IsAccounted_example :
    IsAccounted
      (total_size (data_iovecs bufs))
      no_counts
      (write_entries memory_file file (data_iovecs bufs) (total_size (data_iovecs bufs)) no_counts)
write_entries-IsAccounted_example =
    write_entries-IsAccounted memory_file file (data_iovecs bufs) no_counts (omega arith)

abbrev before : FileSink memory_file
before = record {
  configured = true;
  out_dir = [];
  svc_file = file;
  data_file = file;
  iov_cap = 0;
  counters = no_counts;
}

abbrev sent : FileSink memory_file
sent = record before {
  data_file = record { opened = true; bytes = 5 ∷ 10 ∷ 11 ∷ 12 ∷ 20 ∷ 21 ∷ [] };
  iov_cap = 2;
  counters = record { bytes_written = 5; bytes_dropped = 0; write_errors = 0 };
}

sends : write_data memory_file true bufs before ≡ some (true, sent)
unfolding write_data grow_iov chunk_size write_entries write_loop account
sends = refl

write_data-contents_example :
    memory_file.contents (sent.data_file)
    ≡ memory_file.contents (before.data_file) ++ gather (data_iovecs bufs)
write_data-contents_example =
    write_data-contents memory_file true bufs before sent (omega arith)
      (omega arith, (omega arith, tt)) sends
