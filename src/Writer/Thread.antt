-- ===== src/Writer/Thread.antt =====
-- What engine/p8_log.cpp send and engine/p8_mtk.cpp emit share: a full buffer is parked, and a new one
-- awaited without the lock, while the worker may run.
pub mod Ready
use p.Prelude.{
  ℕ, ◌+◌, ◌-◌, ◌%◌, Bool, true, false, Option, none, some, List, [], ◌++◌, ltb, if◌then◌else◌, take,
}
use p.Kit.{Lst}
use p.Budget.{word}
use p.Core.Drops.{Dropped}
use p.Writer.{Fragment, Writer, hdr_size, pull}

-- A writer with its drop counters, and the batch to which the worker pulls its buffers.
pub record Thread : Type 0 where
  pub writer : Writer
  pub dropped : Dropped
  pub batch : List Fragment

-- What happens while acquire_buffer(true) is awaited: whether the worker pulls the writer's
-- buffers, whether a buffer comes, and the clock then.
pub record Wait : Type 0 where
  pub pulled : Bool
  pub answer : Bool
  pub start_time : ℕ

-- mz_buf_max - mz_buf_used
abbrev pub space : Writer → ℕ
space w = (w.buf_max + word - w.buf_used) % word

-- The body of a buffer once bytes were stored at an offset of the buffer.
abbrev pub body_with : ℕ → List ℕ → Fragment → List ℕ
body_with at stored b = take (at - hdr_size) b.body ++ stored

unfoldable pub start_buffer : ℕ → ℕ → Writer → Writer
start_buffer packet_type now w = record w {
  buffer = some (record {
    packet_type = packet_type;
    flags = 0;
    size = hdr_size;
    thread_id = w.thread_id;
    start_time = now;
    stop_time = 0;
    body = [];
  });
  buf_used = hdr_size;
}

module _ (K : Lst) where
  unfoldable pub park : Fragment → Writer → Writer
  park b w = record w { fragments = K.push_last w.fragments b; buffer = none }

  unfoldable pub park_full : ℕ → Writer → Option Fragment → Writer
  unfolding park
  park_full needed w none = w
  park_full needed w (some b) = if ltb (space w) needed then park b w else w

  unfoldable pub meanwhile : Wait → Thread → Thread
  unfolding pull
  meanwhile wait t =
      let (batch, w) = pull K t.batch t.writer in
      if wait.pulled then record t { batch = batch; writer = w } else t

  unfoldable pub obtain : ℕ → Wait → Thread → Option Fragment → Bool × Thread
  unfolding meanwhile start_buffer
  obtain packet_type wait t (some b) = (true, t)
  obtain packet_type wait t none =
      let u = meanwhile wait t in
      if wait.answer
      then (true, record u { writer = start_buffer packet_type wait.start_time u.writer })
      else (false, u)

  unfoldable pub make_ready : ℕ → ℕ → Wait → Thread → Bool × Thread
  unfolding park_full obtain
  make_ready needed packet_type wait t =
      let w = park_full needed t.writer t.writer.buffer in
      obtain packet_type wait (record t { writer = w }) w.buffer

  -- The end of a record: a buffer that can hold no further one is parked.
  unfoldable pub park_done : ℕ → Fragment → Writer → Writer
  unfolding park
  park_done needed b w =
      if ltb (space w) needed
      then record (park b w) { buf_used = 0 }
      else record w { buffer = some b }
