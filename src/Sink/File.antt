-- ===== src/Sink/File.antt =====
-- engine/p8_sink_file.hpp and p8_sink_file.cpp: the sink that writes two append-only files.
pub mod Accounting
pub mod Contents
use p.Prelude.{
  ℕ, zero, suc, ◌+◌, ◌-◌, ◌*◌, ◌%◌, min, Bool, true, false, Option, none, some, List, [], ◌∷◌, ◌++◌,
  leb, ◌==◌, if◌then◌else◌, length, take, drop,
}
use p.Kit.{Lst, Iovec, FileApi}
use p.Budget.{word}
use p.Sink.{DataBuf, SvcBuf, hello_size}

-- What the constructor reads: the FileBin section, absent or with its OutDir, absent or a path.
unfoldable pub configure : Option (Option (List ℕ)) → Bool × List ℕ
configure none = (false, [])
configure (some none) = (false, [])
configure (some (some [])) = (false, [])
configure (some (some (c ∷ path))) = (true, c ∷ path)

-- What open asks of the system: process name, process id in digits, the UTC time stamp, and
-- whether the directory was made.
pub record Environment : Type 0 where
  pub process_name : List ℕ
  pub process_id : List ℕ
  pub stamp : List ℕ
  pub directory_made : Bool

-- The entries of a batch.
abbrev pub data_iovecs : List DataBuf → List Iovec
data_iovecs [] = []
data_iovecs (b ∷ bufs) = record { memory = b.memory; size = b.size } ∷ data_iovecs bufs

abbrev pub service_iovecs : List SvcBuf → List Iovec
service_iovecs [] = []
service_iovecs (b ∷ bufs) = record { memory = b.memory; size = b.used } ∷ service_iovecs bufs

-- The counters of the sink.
pub record Counters : Type 0 where
  pub bytes_written : ℕ
  pub bytes_dropped : ℕ
  pub write_errors : ℕ

unfoldable pub drop_batch : ℕ → Counters → Bool × Counters
drop_batch size c = if size == 0 then (true, c) else (
  false,
  record c {
    bytes_dropped = (c.bytes_dropped + size) % word;
    write_errors = (c.write_errors + 1) % word;
  },
)

-- The counters after a chunk of `size` bytes of which `written` were sent.
unfoldable pub account : ℕ → ℕ → Counters → Counters
account size written c =
    if written == size
    then record c { bytes_written = (c.bytes_written + written) % word }
    else record {
      bytes_written = (c.bytes_written + written) % word;
      bytes_dropped = (c.bytes_dropped + (size + word - written) % word) % word;
      write_errors = (c.write_errors + 1) % word;
    }

-- mz_max_iov
abbrev pub max_iov : ℕ
max_iov = 1024

-- The sum of the entries' sizes, as the chunk loop computes it in a size_t.
unfoldable pub chunk_size : List Iovec → ℕ → ℕ
chunk_size [] sum = sum
chunk_size (v ∷ vs) sum = chunk_size vs ((sum + v.size) % word)

module _ (F : FileApi) where
  open F use {Handle}

  pub record FileSink : Type 0 where
    pub configured : Bool
    pub out_dir : List ℕ
    pub svc_file : Handle
    pub data_file : Handle
    pub iov_cap : ℕ
    pub counters : Counters

  -- The chunk loop over the entries; the fuel is their number. none means that it ran out.
  unfoldable pub write_loop :
      ℕ → Handle → List Iovec → Bool → Counters → Option (Bool × Handle × Counters)
  unfolding account chunk_size
  write_loop fuel f [] ok c = some (ok, f, c)
  write_loop zero f (v ∷ vs) ok c = none
  write_loop (suc fuel) f (v ∷ vs) ok c =
      let n = min max_iov (length (v ∷ vs)) in
      let chunk = take n (v ∷ vs) in
      let size = chunk_size chunk 0 in
      let sent = F.write_v f chunk in
      write_loop fuel sent.1 (drop n (v ∷ vs)) (if sent.0 == size then ok else false)
        (account size sent.0 c)

  unfoldable pub write_entries :
      Handle → List Iovec → ℕ → Counters → Option (Bool × Handle × Counters)
  unfolding drop_batch write_loop
  write_entries f vs size c =
      if size == 0
      then some (true, f, c)
      else if F.is_open f
      then write_loop (length vs) f vs true c
      else (let (ok, c') = drop_batch size c in some (ok, f, c'))

  -- `realloc_ok` is whether realloc answers.
  unfoldable pub grow_iov : Bool → ℕ → FileSink → Bool × FileSink
  grow_iov realloc_ok needed s =
      if leb needed s.iov_cap
      then (true, s)
      else if realloc_ok
      then (true, record s { iov_cap = needed })
      else (false, s)

  -- A batch that cannot be sent at all.
  unfoldable pub drop_all : ℕ → FileSink → Bool × FileSink
  unfolding drop_batch
  drop_all size s = let (ok, c) = drop_batch size s.counters in (ok, record s { counters = c })

  abbrev pub to_data : Option (Bool × Handle × Counters) → FileSink → Option (Bool × FileSink)
  to_data none s = none
  to_data (some (ok, f, c)) s = some (ok, record s { data_file = f; counters = c })

  abbrev pub to_service : Option (Bool × Handle × Counters) → FileSink → Option (Bool × FileSink)
  to_service none s = none
  to_service (some (ok, f, c)) s = some (ok, record s { svc_file = f; counters = c })

  unfoldable pub write_hello : List ℕ → FileSink → Option (Bool × FileSink)
  unfolding write_entries
  write_hello header s =
      to_data
        (write_entries s.data_file (record { memory = header; size = hello_size } ∷ []) hello_size
          s.counters)
        s

  unfoldable pub write_data : Bool → List DataBuf → FileSink → Option (Bool × FileSink)
  unfolding grow_iov drop_all chunk_size write_entries
  write_data realloc_ok bufs s =
      let vs = data_iovecs bufs in
      let total = chunk_size vs 0 in
      if length bufs == 0
      then some (true, s)
      else (let (grown, t) = grow_iov realloc_ok (length bufs) s in
          if grown
          then to_data (write_entries t.data_file vs total t.counters) t
          else some (drop_all total t))

  unfoldable pub write_service : Bool → List SvcBuf → FileSink → Option (Bool × FileSink)
  unfolding grow_iov drop_all chunk_size write_entries
  write_service realloc_ok bufs s =
      let vs = service_iovecs bufs in
      let total = chunk_size vs 0 in
      if length bufs == 0
      then some (true, s)
      else (let (grown, t) = grow_iov realloc_ok (length bufs) s in
          if grown
          then to_service (write_entries t.svc_file vs total t.counters) t
          else some (drop_all total t))

  -- The two files of a run, in its own directory.
  unfoldable pub open_sink : Environment → FileSink → Bool × FileSink
  open_sink e s =
      let run = e.process_name ++ b'_' ∷ (e.process_id ++ b'_' ∷ e.stamp) in
      let base = b'p' ∷ b'8' ∷ b'_' ∷ e.stamp in
      let svc_path =
        s.out_dir ∷ run ∷ (base ++ b'.' ∷ b'p' ∷ b'8' ∷ b's' ∷ b'v' ∷ b'c' ∷ []) ∷ [] in
      let data_path =
        s.out_dir ∷ run ∷ (base ++ b'.' ∷ b'p' ∷ b'8' ∷ b'd' ∷ b'a' ∷ b't' ∷ []) ∷ [] in
      let svc = F.open_file s.svc_file svc_path in
      let data_answer = F.open_file s.data_file data_path in
      if s.configured
      then (if e.directory_made
          then (if svc.0
              then (if data_answer.0
                  then (true, record s { svc_file = svc.1; data_file = data_answer.1 })
                  else (
                    false,
                    record s { svc_file = F.close false svc.1; data_file = data_answer.1 },
                  ))
              else (false, record s { svc_file = svc.1 }))
          else (false, s))
      else (false, s)

  unfoldable pub flush : FileSink → FileSink
  flush s = record s {
    svc_file = if F.is_open s.svc_file then F.sync s.svc_file else s.svc_file;
    data_file = if F.is_open s.data_file then F.sync s.data_file else s.data_file;
  }

  unfoldable pub close : FileSink → FileSink
  close s = record s { svc_file = F.close true s.svc_file; data_file = F.close true s.data_file }
