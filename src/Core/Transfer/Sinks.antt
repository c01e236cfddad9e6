-- ===== src/Core/Transfer/Sinks.antt =====
-- The two sinks behind the interface that the worker uses, and what a flush leaves in the data file.
use p.Prelude.{
  ℕ, ◌+◌, ◌<◌, ◌≡◌, refl, sym, ap, ◌∙◌, Bool, true, false, Option, none, some, List, [], ◌∷◌, ◌++◌,
  ◌==◌, length, take, arith, if_cases, length-append, All, take-append_length,
}
use mathlib.Core.List.{append-nil}
use p.Kit.{Lst, FileApi, gather, total_size}
use p.Budget.{word}
use p.Sink.Null
use p.Sink.Null.{NullSink}
use p.Sink.File
use p.Sink.File.{FileSink, data_iovecs}
use p.Sink.File.Accounting.{counted}
use p.Sink.File.Contents.{Backed, write_data-contents}
use p.Writer.{Fragment}
use p.Writer.Thread.Ready.{IsSealed}
use p.Core.Transfer.{SinkApi, buffer_header, data_bufs, flush_ready}

abbrev pub null_sink : SinkApi
null_sink = record {
  State = NullSink;
  write_data = Null.write_data;
  write_service = Null.write_service;
  flush = Null.flush;
}

module _ (F : FileApi) where
  -- A write that does not end would leave the sink as it is; every write of the file sink ends.
  abbrev pub outcome : FileSink F → Option (Bool × FileSink F) → Bool × FileSink F
  outcome s none = (false, s)
  outcome s (some r) = r

  -- `realloc_ok` is whether realloc answers.
  abbrev pub file_sink : Bool → SinkApi
  file_sink realloc_ok = record {
    State = FileSink F;
    write_data = λ bufs s. outcome s (File.write_data F realloc_ok bufs s);
    write_service = λ bufs s. outcome s (File.write_service F realloc_ok bufs s);
    flush = File.flush F;
  }

-- The buffers as they are sent: the header, and what was written behind it.
abbrev pub packets : List Fragment → List ℕ
packets [] = []
packets (b ∷ bs) = (buffer_header b ++ b.body) ++ packets bs

packet_whole :
    (b : Fragment)
    → IsSealed b
    → take b.size (buffer_header b ++ b.body) ≡ buffer_header b ++ b.body
packet_whole b sealed =
    let long : b.size ≡ length (buffer_header b ++ b.body) =
      omega (arith, length-append (buffer_header b) b.body) in
    ap (λ n. take n (buffer_header b ++ b.body)) long
    ∙ ap (take (length (buffer_header b ++ b.body))) (sym (append-nil (buffer_header b ++ b.body)))
    ∙ take-append_length (buffer_header b ++ b.body) []

gather-packets :
    (batch : List Fragment)
    → All IsSealed batch
    → gather (data_iovecs (data_bufs batch)) ≡ packets batch
gather-packets [] sealed = refl
gather-packets (b ∷ batch) (one, sealed) =
    ap (λ l. l ++ gather (data_iovecs (data_bufs batch))) (packet_whole b one)
    ∙ ap (◌++◌ (buffer_header b ++ b.body)) (gather-packets batch sealed)

packets-Backed :
    (batch : List Fragment) → All IsSealed batch → All Backed (data_iovecs (data_bufs batch))
packets-Backed [] sealed = tt
packets-Backed (b ∷ batch) (one, sealed) =
    (omega (arith, length-append (buffer_header b) b.body), packets-Backed batch sealed)

module _ (K : Lst) (F : FileApi) where
  -- A flush that succeeds: the file grew by the packets, and the batch is given back.
  abbrev pub IsFlushed : List Fragment → FileSink F → FileSink F × List Fragment → Type 0
  IsFlushed batch s r =
      (F.contents r.0.data_file ≡ F.contents s.data_file ++ packets batch) × (r.1 ≡ batch)

  -- Where the batch of a flush consists of sealed buffers, the counters of the file sink have room
  -- and its write_data succeeds, the data file grows by exactly the header and the body of every
  -- buffer, in order, and the whole batch is given back.
  pub flush_ready-IsFlushed :
      (realloc_ok : Bool) (batch : List Fragment) (s s' : FileSink F)
      → All IsSealed batch
      → counted s.counters + total_size (data_iovecs (data_bufs batch)) < word
      → File.write_data F realloc_ok (data_bufs batch) s ≡ some (true, s')
      → IsFlushed batch s (flush_ready K (file_sink F realloc_ok) batch s)
  unfolding flush_ready
  flush_ready-IsFlushed realloc_ok [] s s' sealed room e =
      if_cases (IsFlushed [] s) (K.size {A = Fragment} [] == 0) _ _
        (λ empty. (sym (append-nil (F.contents s.data_file)), refl))
        (λ full. absurd (ground (arith, full, K.size_counts {A = Fragment} [])))
  flush_ready-IsFlushed realloc_ok (b ∷ batch) s s' sealed room e =
      if_cases (IsFlushed (b ∷ batch) s) (K.size (b ∷ batch) == 0) _ _
        (λ empty. absurd (ground (arith, empty, K.size_counts (b ∷ batch))))
        (λ full. (
          ap (λ o. F.contents (outcome F s o).1.data_file) e
              ∙ write_data-contents F realloc_ok (data_bufs (b ∷ batch)) s s' room
                  (packets-Backed (b ∷ batch) sealed) e
              ∙ ap (◌++◌ (F.contents s.data_file)) (gather-packets (b ∷ batch) sealed),
          refl,
        ))
