-- ===== src/Core/Transfer.antt =====
-- engine/p8_core.cpp, the way of a finished buffer to the sink: submit_buffer, submit_chain,
-- drain_writers and flush_ready, with core_push of engine/p8_tls_writer.cpp. The interface is that of
-- engine/p8_sink.hpp.
pub mod Handover
pub mod Sinks
use p.Prelude.{
  ℕ, ◌+◌, ◌%◌, ◌^◌, Bool, true, false, not, Option, none, some, List, [], ◌∷◌, ◌++◌, ltb, ◌==◌,
  if◌then◌else◌,
}
use p.Kit.{Lst}
use p.Sink.{DataBuf, SvcBuf}
use p.Core.Service.{little_endian}
use p.Writer.{Fragment, Writer, pull}

-- cp8_sink_iface, as the worker uses it.
pub record SinkApi : Type 1 where
  pub State : Type 0
  pub write_data : List DataBuf → State → Bool × State
  pub write_service : List SvcBuf → State → Bool × State
  pub flush : State → State

-- The part of cp8_core that producers reach: mo_ready_queue. `wakes` counts the calls of
-- mo_worker_event.set(mu_event_wake).
pub record Ready : Type 0 where
  pub initialized : Bool
  pub queue : List Fragment
  pub wakes : ℕ

-- s_p8_data_buf_hdr
abbrev pub buffer_header : Fragment → List ℕ
buffer_header b =
    (b.packet_type % 256)
    ∷ (b.flags % 256)
    ∷ (little_endian 2 b.size
        ++ (little_endian 4 b.thread_id
            ++ (little_endian 8 b.start_time ++ little_endian 8 b.stop_time)))

-- The memory of a buffer, up to the end of what was written.
abbrev pub data_buf : Fragment → DataBuf
data_buf b = record { size = b.size; memory = buffer_header b ++ b.body }

abbrev pub data_bufs : List Fragment → List DataBuf
data_bufs [] = []
data_bufs (b ∷ bs) = data_buf b ∷ data_bufs bs

module _ (K : Lst) where
  unfoldable pub submit_buffer : Option Fragment → Ready → Ready
  submit_buffer none c = c
  submit_buffer (some b) c =
      if not c.initialized
      then c
      else record c { queue = K.push_last c.queue b; wakes = c.wakes + 1 }

  -- The result has what is left of the chain.
  unfoldable pub submit_chain : List Fragment → Ready → List Fragment × Ready
  submit_chain chain c =
      if not c.initialized
      then (chain, c)
      else if K.size chain == 0
      then (chain, c)
      else (let (queue, left) = K.clear (λ b q. K.push_last q b) chain c.queue in
          (left, record c { queue = queue; wakes = c.wakes + 1 }))

  -- The current buffer joins the chain.
  abbrev pub with_tail : List Fragment → Option Fragment → List Fragment
  with_tail fragments none = fragments
  with_tail fragments (some b) = K.push_last fragments b

  unfoldable pub core_push : Writer → Ready → Writer × Ready
  unfolding submit_buffer submit_chain
  core_push w c =
      if ltb 0 (K.size w.fragments)
      then (let (left, d) = submit_chain (with_tail w.fragments w.buffer) c in
          (record w { fragments = left; buffer = none; buf_used = 0 }, d))
      else (record w { buffer = none; buf_used = 0 }, submit_buffer w.buffer c)

  -- The loop over the registry, from its head on.
  unfoldable pub pull_all : List Writer → List Fragment → List Fragment × List Writer
  unfolding pull
  pull_all [] io_data = (io_data, [])
  pull_all (w ∷ ws) io_data =
      let (batch, v) = pull K io_data w in let (all, rest) = pull_all ws batch in (all, v ∷ rest)

  unfoldable pub drain_writers : Bool → List Writer → List Fragment → List Fragment × List Writer
  unfolding pull_all
  drain_writers initialized writers io_data =
      if not initialized then (io_data, writers) else pull_all writers io_data

module _ (K : Lst) (S : SinkApi) where
  -- What was given back to the pool is in the second component.
  unfoldable pub flush_ready : List Fragment → S.State → S.State × List Fragment
  flush_ready ready sink =
      if K.size ready == 0 then (sink, []) else ((S.write_data (data_bufs ready) sink).1, ready)
