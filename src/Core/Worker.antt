-- ===== src/Core/Worker.antt =====
-- engine/p8_core.cpp, worker_main: the loop of the thread that feeds the sink, in a build without
-- P8_TESTING. A round follows a return of mo_worker_event.wait. The constructor starts the worker once
-- the core is initialised, so that release_buffer and release_buffers give every buffer back.
pub mod Rounds
pub mod Shutdown
use p.Prelude.{
  ℕ, zero, suc, ◌+◌, ◌-◌, ◌%◌, Bool, true, false, not, Option, none, some, List, [], ◌∷◌, ◌++◌, ltb,
  leb, ◌==◌, if◌then◌else◌,
}
use p.Kit.{Lst}
use p.Budget.{word}
use p.Sink.{SvcBuf}
use p.Core.Service.{Svc}
use p.Core.Drops.{DropStats, Dropped, poll_dropped_stats}
use p.Core.Transfer.{SinkApi, Ready, submit_buffer, core_push, drain_writers, flush_ready}
use p.Writer.{Fragment, Writer, move_all}

-- mu_event_stop, mu_event_wake, and a wait that timed out.
pub data Signal : Type 0 where
  stop wake timeout : Signal

abbrev pub is_stop : Signal → Bool
is_stop stop = true
is_stop wake = false
is_stop timeout = false

-- `poll_ticks` is lu_stats_poll_ticks, and `last_ticks` lu_stats_last_ticks. The writers and their drop
-- counters stand in the order of the registry. `recycled` and `recycled_svc` are the buffers that
-- were given back to the pool, the latest last.
pub record Station (S : SinkApi) : Type 0 where
  pub ready : Ready
  pub svc : Svc
  pub writers : List Writer
  pub counters : List Dropped
  pub totals : DropStats
  pub wake_pending : Bool
  pub poll_ticks : ℕ
  pub last_ticks : ℕ
  pub sink : S.State
  pub recycled : List Fragment
  pub recycled_svc : List SvcBuf

-- A step of another thread; a number is a place in the registry.
pub data Act : Type 0 where
  submitted : Fragment → Act
  pushed : ℕ → Act
  filled : ℕ → Fragment → Act

module _ (K : Lst) where
  unfoldable pub push_nth : ℕ → List Writer → Ready → List Writer × Ready
  unfolding core_push
  push_nth n [] c = ([], c)
  push_nth zero (w ∷ ws) c = let (v, d) = core_push K w c in (v ∷ ws, d)
  push_nth (suc n) (w ∷ ws) c = let (vs, d) = push_nth n ws c in (w ∷ vs, d)

  unfoldable pub fill_nth : ℕ → Fragment → List Writer → List Writer
  fill_nth n b [] = []
  fill_nth zero b (w ∷ ws) = record w { fragments = K.push_last w.fragments b } ∷ ws
  fill_nth (suc n) b (w ∷ ws) = w ∷ fill_nth n b ws

module _ (K : Lst) (S : SinkApi) where
  -- The service buffers, to the sink and back to the pool.
  unfoldable pub write_services : Station S → Station S
  unfolding move_all
  write_services s =
      let (left, bufs) = move_all K (K.size s.svc.buffers) s.svc.buffers [] in
      let sink = if ltb 0 (K.size bufs) then (S.write_service bufs s.sink).1 else s.sink in
      record s {
        svc = record s.svc { buffers = left };
        sink = sink;
        recycled_svc = (K.clear (λ b l. l ++ b ∷ []) bufs s.recycled_svc).0;
      }

  -- The ready queue, then the buffers of every writer.
  unfoldable pub collect : Station S → List Fragment × Station S
  unfolding move_all drain_writers
  collect s =
      let (left, ready) = move_all K (K.size s.ready.queue) s.ready.queue [] in
      let (batch, writers) = drain_writers K s.ready.initialized s.writers ready in
      (batch, record s { ready = record s.ready { queue = left }; writers = writers })

  unfoldable pub poll : ℕ → Station S → Station S
  unfolding poll_dropped_stats
  poll now s =
      if s.poll_ticks == 0
      then s
      else if leb s.poll_ticks ((now + word - s.last_ticks) % word)
      then (let (totals, counters) = poll_dropped_stats s.counters s.totals in
          record s { totals = totals; counters = counters; last_ticks = now })
      else s

  -- The debounce of the pressure wake is cleared before the batch is written.
  unfoldable pub write_batch : List Fragment → Station S → Station S
  unfolding flush_ready
  write_batch batch s =
      let t = record s { wake_pending = false } in
      let (sink, returned) = flush_ready K S batch t.sink in
      record t { sink = S.flush sink; recycled = t.recycled ++ returned }

  unfoldable pub round : ℕ → Station S → Station S
  unfolding write_services collect poll write_batch
  round now s = let (batch, t) = collect (write_services s) in write_batch batch (poll now t)

  -- What another thread does between two rounds: it submits a buffer, hands over all that its
  -- writer holds (core_push), or parks a buffer that its writer has filled.
  unfoldable pub act : Act → Station S → Station S
  unfolding submit_buffer push_nth
  act (submitted b) s = record s { ready = submit_buffer K (some b) s.ready }
  act (pushed n) s =
      let (writers, ready) = push_nth K n s.writers s.ready in
      record s { writers = writers; ready = ready }
  act (filled n b) s = record s { writers = fill_nth K n b s.writers }

  unfoldable pub act_all : List Act → Station S → Station S
  unfolding act
  act_all [] s = s
  act_all (a ∷ acts) s = act_all acts (act a s)

  -- The loop over what the waits return, each with the clock of its round and with what the other
  -- threads did before. The result says whether the loop has ended.
  unfoldable pub worker_main : List (Signal × ℕ × List Act) → Station S → Bool × Station S
  unfolding round act_all
  worker_main [] s = (false, s)
  worker_main ((signal, now, acts) ∷ waits) s =
      let t = round now (act_all acts s) in
      let rest = worker_main waits t in if is_stop signal then (true, t) else rest
