-- ===== src/Core/Worker/Rounds.antt =====
-- What one round of the worker does with all that waits for it.
use p.Prelude.{
  ℕ, ◌+◌, ◌-◌, ◌%◌, ◌≡◌, refl, sym, ap, ◌∙◌, Bool, true, false, List, [], ◌∷◌, ◌++◌, ltb, leb, ◌==◌,
  length, arith, if_cases, if◌then◌else◌, All,
}
use mathlib.Core.Path.{subst}
use mathlib.Core.List.{append_assoc, append-nil}
use p.Kit.{Lst, visit}
use p.Budget.{word}
use p.Sink.{SvcBuf}
use p.Core.Transfer.{SinkApi, Ready, data_bufs, pull_all, drain_writers, flush_ready}
use p.Core.Transfer.Handover.{IsEmpty, chains_of, drain_writers-All, length-pull_all}
use p.Core.Service.{Svc}
use p.Writer.{Fragment, Writer, move_all}
use p.Writer.Pull.{move_all_lem}
use p.Core.Worker.{Station, write_services, collect, poll, write_batch, round}

-- The buffers that wait for the worker: the ready queue, then each writer's finished buffers and the
-- one in progress.
abbrev pub pending : {S : SinkApi} → Station S → List Fragment
pending s = s.ready.queue ++ chains_of s.writers

module _ (S : SinkApi) where
  -- A sink that is not called for an empty batch.
  abbrev pub written : List Fragment → S.State → S.State
  written [] sink = sink
  written (b ∷ bs) sink = (S.write_data (data_bufs (b ∷ bs)) sink).1

  abbrev pub serviced : List SvcBuf → S.State → S.State
  serviced [] sink = sink
  serviced (b ∷ bs) sink = (S.write_service (b ∷ bs) sink).1

-- Nothing waits for the worker any more.
abbrev pub IsDrained : {S : SinkApi} → Station S → Type 0
IsDrained s = (s.ready.queue ≡ []) × All IsEmpty s.writers × (s.svc.buffers ≡ [])

-- What a round makes of s: every service buffer, then every data buffer, was written by one call and
-- given back to the pool, and the sink was flushed.
abbrev pub IsServed : (S : SinkApi) → Station S → Station S → Type 0
IsServed S s t =
    IsDrained t
    × (t.sink ≡ S.flush (written S (pending s) (serviced S s.svc.buffers s.sink)))
    × (t.recycled ≡ s.recycled ++ pending s)
    × (t.recycled_svc ≡ s.recycled_svc ++ s.svc.buffers)
    × (t.wake_pending ≡ false)
    × (t.ready.initialized ≡ s.ready.initialized)
    × (length t.writers ≡ length s.writers)

module _ (K : Lst) (S : SinkApi) where
  moved_all : {A : Type 0} (l : List A) → move_all K (K.size l) l [] ≡ ([], l)
  moved_all l = move_all_lem K (K.size l) l [] (omega (arith, K.size_counts l))

  cleared : (l m : List SvcBuf) → visit (λ b l. l ++ b ∷ []) l m ≡ m ++ l
  cleared [] m = sym (append-nil m)
  cleared (b ∷ l) m = cleared l (m ++ b ∷ []) ∙ append_assoc m (b ∷ []) l

  serviced_lem :
      (bufs : List SvcBuf) (sink : S.State)
      → (if ltb 0 (K.size bufs) then (S.write_service bufs sink).1 else sink) ≡ serviced S bufs sink
  serviced_lem [] sink =
      if_cases (λ (q : S.State). q ≡ sink) (ltb 0 (K.size {A = SvcBuf} [])) _ _
        (λ full. absurd (ground (arith, full, K.size_counts {A = SvcBuf} []))) (λ empty. refl)
  serviced_lem (b ∷ bufs) sink =
      if_cases (λ (q : S.State). q ≡ (S.write_service (b ∷ bufs) sink).1)
        (ltb 0 (K.size (b ∷ bufs))) _ _ (λ full. refl)
        (λ empty. absurd (ground (arith, empty, K.size_counts (b ∷ bufs))))

  -- The rest of write_services, once the buffers have moved.
  abbrev of_moved : Station S → List SvcBuf × List SvcBuf → Station S
  of_moved s (left, bufs) = record s {
    svc = record s.svc { buffers = left };
    sink = if ltb 0 (K.size bufs) then (S.write_service bufs s.sink).1 else s.sink;
    recycled_svc = (K.clear (λ b l. l ++ b ∷ []) bufs s.recycled_svc).0;
  }

  write_services_lem :
      (s : Station S)
      → write_services K S s ≡ record s {
        svc = record s.svc { buffers = [] };
        sink = serviced S s.svc.buffers s.sink;
        recycled_svc = s.recycled_svc ++ s.svc.buffers;
      }
  unfolding write_services
  write_services_lem s =
      ap (of_moved s) (moved_all s.svc.buffers)
      ∙ ap
          (λ (l : List SvcBuf). record s {
            svc = record s.svc { buffers = [] };
            sink =
                if ltb 0 (K.size s.svc.buffers)
                then (S.write_service s.svc.buffers s.sink).1
                else s.sink;
            recycled_svc = l;
          })
          (ap (λ (r : List SvcBuf × List SvcBuf). r.0)
              (K.clear_visits (λ b l. l ++ b ∷ []) s.svc.buffers s.recycled_svc)
            ∙ cleared s.svc.buffers s.recycled_svc)
      ∙ ap
          (λ (q : S.State). record s {
            svc = record s.svc { buffers = [] };
            sink = q;
            recycled_svc = s.recycled_svc ++ s.svc.buffers;
          })
          (serviced_lem s.svc.buffers s.sink)

  drained :
      (initialized : Bool) (ws : List Writer) (io_data : List Fragment)
      → initialized ≡ true
      → drain_writers K initialized ws io_data ≡ pull_all K ws io_data
  unfolding drain_writers
  drained true ws io_data e = refl
  drained false ws io_data e = cc

  collect_lem :
      (s : Station S)
      → s.ready.initialized ≡ true
      → collect K S s ≡ (
        pending s,
        record s {
          ready = record s.ready { queue = [] };
          writers = (pull_all K s.writers s.ready.queue).1;
        },
      )
  unfolding collect drain_writers
  collect_lem s ready =
      ap
        (λ (m : List Fragment × List Fragment).
          let (batch, writers) = drain_writers K s.ready.initialized s.writers m.1 in
          (batch, record s { ready = record s.ready { queue = m.0 }; writers = writers }))
        (moved_all s.ready.queue)
      ∙ ap
          (λ (r : List Fragment × List Writer).
            (r.0, record s { ready = record s.ready { queue = [] }; writers = r.1 }))
          (drained s.ready.initialized s.writers s.ready.queue ready)
      ∙ ap
          (λ (batch : List Fragment). (
            batch,
            record s {
              ready = record s.ready { queue = [] };
              writers = (pull_all K s.writers s.ready.queue).1;
            },
          ))
          (drain_writers-All K s.writers s.ready.queue).0

  -- What a poll keeps: all but the counters.
  abbrev IsPolled : Station S → Station S → Type 0
  IsPolled s t =
      (t.ready ≡ s.ready)
      × (t.writers ≡ s.writers)
      × (t.svc ≡ s.svc)
      × (t.sink ≡ s.sink)
      × (t.recycled ≡ s.recycled)
      × (t.recycled_svc ≡ s.recycled_svc)

  poll-IsPolled : (now : ℕ) (s : Station S) → IsPolled s (poll K S now s)
  unfolding poll
  poll-IsPolled now s =
      if_cases (IsPolled s) (s.poll_ticks == 0) _ _ (λ never. (refl, refl, refl, refl, refl, refl))
        (λ some_ticks.
          if_cases (IsPolled s) (leb s.poll_ticks ((now + word - s.last_ticks) % word)) _ _
            (λ due. (refl, refl, refl, refl, refl, refl))
            (λ early. (refl, refl, refl, refl, refl, refl)))

  flush_ready_lem :
      (batch : List Fragment) (sink : S.State)
      → flush_ready K S batch sink ≡ (written S batch sink, batch)
  unfolding flush_ready
  flush_ready_lem [] sink =
      if_cases (λ (r : S.State × List Fragment). r ≡ (sink, [])) (K.size {A = Fragment} [] == 0) _ _
        (λ empty. refl) (λ full. absurd (ground (arith, full, K.size_counts {A = Fragment} [])))
  flush_ready_lem (b ∷ batch) sink =
      if_cases
        (λ (r : S.State × List Fragment).
          r ≡ ((S.write_data (data_bufs (b ∷ batch)) sink).1, b ∷ batch))
        (K.size (b ∷ batch) == 0) _ _
        (λ empty. absurd (ground (arith, empty, K.size_counts (b ∷ batch)))) (λ full. refl)

  -- The end of a round, for any state that the poll has kept.
  served :
      (s t : Station S)
      → IsPolled
          (record s {
            svc = record s.svc { buffers = [] };
            sink = serviced S s.svc.buffers s.sink;
            recycled_svc = s.recycled_svc ++ s.svc.buffers;
            ready = record s.ready { queue = [] };
            writers = (pull_all K s.writers s.ready.queue).1;
          })
          t
      → IsServed S s (write_batch K S (pending s) t)
  unfolding write_batch
  served s t (ready, writers, svc, sink, recycled, recycled_svc) =
      let flushed = flush_ready_lem (pending s) t.sink in
      (
        (
          ap (λ (r : Ready). r.queue) ready,
          subst (All IsEmpty) (sym writers) (drain_writers-All K s.writers s.ready.queue).1,
          ap (λ (r : Svc). r.buffers) svc,
        ),
        ap (λ (r : S.State × List Fragment). S.flush r.0) flushed
            ∙ ap (λ (q : S.State). S.flush (written S (pending s) q)) sink,
        ap (λ (r : S.State × List Fragment). t.recycled ++ r.1) flushed
            ∙ ap (λ (l : List Fragment). l ++ pending s) recycled,
        recycled_svc,
        refl,
        ap (λ (r : Ready). r.initialized) ready,
        ap length writers ∙ length-pull_all K s.writers s.ready.queue,
      )

  -- A round of the worker on an initialised core writes all service buffers by one call of the
  -- sink, then by one call all data buffers, those of the ready queue before those of the writers
  -- in the order of the registry, each writer's finished ones before the one in progress, calls
  -- the sink for neither batch if it is empty, flushes the sink, gives every buffer back to the
  -- pool in this order and clears the pending wake; it leaves no service buffer, an empty queue
  -- and writers without buffers.
  pub round-IsServed :
      (now : ℕ) (s : Station S) → s.ready.initialized ≡ true → IsServed S s (round K S now s)
  unfolding round
  round-IsServed now s ready =
      let u : Station S = record s {
        svc = record s.svc { buffers = [] };
        sink = serviced S s.svc.buffers s.sink;
        recycled_svc = s.recycled_svc ++ s.svc.buffers;
      } in
      let v : Station S = record u {
        ready = record u.ready { queue = [] };
        writers = (pull_all K u.writers u.ready.queue).1;
      } in
      subst
        (λ (r : List Fragment × Station S). IsServed S s (write_batch K S r.0 (poll K S now r.1)))
        (sym (ap (collect K S) (write_services_lem s) ∙ collect_lem u ready))
        (served s (poll K S now v) (poll-IsPolled now v))
