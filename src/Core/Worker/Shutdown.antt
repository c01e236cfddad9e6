-- ===== src/Core/Worker/Shutdown.antt =====
-- The loop of the worker until it is stopped: no buffer stays behind, and none is lost.
use p.Prelude.{
  ℕ, zero, suc, ◌+◌, ◌≡◌, refl, ap, ◌∙◌, Bool, true, false, not, ◌||◌, Option, none, some, List, [],
  ◌∷◌, ◌++◌, ltb, length, arith, if_cases, if◌then◌else◌, All,
}
use p.Kit.{Lst}
use p.Core.Transfer.{SinkApi, Ready, submit_buffer, core_push}
use p.Core.Transfer.Handover.{IsEmpty, chains_of, core_push-IsPushed}
use p.Writer.{Fragment, Writer}
use p.Writer.Pull.{tail_of, chain_of}
use p.Core.Worker.{
  Signal, is_stop, Station, Act, submitted, pushed, filled, push_nth, fill_nth, act, act_all, round,
  worker_main,
}
use p.Core.Worker.Rounds.{IsDrained, pending, round-IsServed}

module _ (g : Fragment → ℕ) where
  -- The weight of buffers; two lists with the same weight under every g hold the same buffers.
  abbrev pub total : List Fragment → ℕ
  total [] = 0
  total (b ∷ bs) = g b + total bs

  abbrev pub weight_of : Option Fragment → ℕ
  weight_of none = 0
  weight_of (some b) = g b

  abbrev pub held_by : Writer → ℕ
  held_by w = total w.fragments + weight_of w.buffer

  abbrev pub held_by_all : List Writer → ℕ
  held_by_all [] = 0
  held_by_all (w ∷ ws) = held_by w + held_by_all ws

  -- What waits for the worker.
  abbrev pub waiting : {S : SinkApi} → Station S → ℕ
  waiting s = total s.ready.queue + held_by_all s.writers

  -- What the other threads produce, in a registry of n writers.
  abbrev pub produced : ℕ → List Act → ℕ
  produced n [] = 0
  produced n (submitted b ∷ acts) = g b + produced n acts
  produced n (pushed i ∷ acts) = produced n acts
  produced n (filled i b ∷ acts) = (if ltb i n then g b else 0) + produced n acts

  -- Until the stop, its own wait included.
  abbrev pub produced_until_stop : ℕ → List (Signal × ℕ × List Act) → ℕ
  produced_until_stop n [] = 0
  produced_until_stop n ((signal, now, acts) ∷ waits) =
      produced n acts + (if is_stop signal then 0 else produced_until_stop n waits)

  total-append : (bs cs : List Fragment) → total (bs ++ cs) ≡ total bs + total cs
  total-append [] cs = omega arith
  total-append (b ∷ bs) cs = omega (arith, total-append bs cs)

abbrev pub has_stop : List (Signal × ℕ × List Act) → Bool
has_stop [] = false
has_stop ((signal, now, acts) ∷ waits) = is_stop signal || has_stop waits

module _ (K : Lst) (g : Fragment → ℕ) where
  tail_of-total : (o : Option Fragment) → total g (tail_of o) ≡ weight_of g o
  tail_of-total none = refl
  tail_of-total (some b) = omega arith

  chains_of-total : (ws : List Writer) → total g (chains_of ws) ≡ held_by_all g ws
  chains_of-total [] = refl
  chains_of-total (w ∷ ws) = omega (
    arith,
    total-append g (chain_of w) (chains_of ws),
    total-append g w.fragments (tail_of w.buffer),
    tail_of-total w.buffer,
    chains_of-total ws,
  )

  core_push-total :
      (w : Writer) (c : Ready)
      → c.initialized ≡ true
      → let r = core_push K w c in
        (total g r.1.queue + held_by g r.0 ≡ total g c.queue + held_by g w)
        × (r.1.initialized ≡ true)
  core_push-total w c ready =
      let ((no_fragments, no_buffer), unused, queue, still, wakes) =
        core_push-IsPushed K w c ready in
      (
        omega (
          arith,
          ap (total g) queue,
          total-append g c.queue (w.fragments ++ tail_of w.buffer),
          total-append g w.fragments (tail_of w.buffer),
          tail_of-total w.buffer,
          ap (total g) no_fragments,
          ap (weight_of g) no_buffer,
        ),
        still ∙ ready,
      )

  push_nth-total :
      (n : ℕ) (ws : List Writer) (c : Ready)
      → c.initialized ≡ true
      → let r = push_nth K n ws c in
        (total g r.1.queue + held_by_all g r.0 ≡ total g c.queue + held_by_all g ws)
        × (r.1.initialized ≡ true)
        × (length r.0 ≡ length ws)
  unfolding push_nth
  push_nth-total n [] c ready = (refl, ready, refl)
  push_nth-total zero (w ∷ ws) c ready =
      let (same, still) = core_push-total w c ready in (omega arith, still, refl)
  push_nth-total (suc n) (w ∷ ws) c ready =
      let (same, still, many) = push_nth-total n ws c ready in (omega arith, still, ap suc many)

  fill_nth-total :
      (n : ℕ) (b : Fragment) (ws : List Writer)
      → (held_by_all g (fill_nth K n b ws)
          ≡ held_by_all g ws + (if ltb n (length ws) then g b else 0))
        × (length (fill_nth K n b ws) ≡ length ws)
  unfolding fill_nth
  fill_nth-total n b [] = (ground arith, refl)
  fill_nth-total zero b (w ∷ ws) = (
    ground (
      arith,
      ap (total g) (K.push_last_appends w.fragments b),
      total-append g w.fragments (b ∷ []),
    ),
    refl,
  )
  fill_nth-total (suc n) b (w ∷ ws) =
      let (same, many) = fill_nth-total n b ws in (ground (arith, same), ap suc many)

  submit_buffer-total :
      (b : Fragment) (c : Ready)
      → c.initialized ≡ true
      → (total g (submit_buffer K (some b) c).queue ≡ total g c.queue + g b)
        × ((submit_buffer K (some b) c).initialized ≡ true)
  unfolding submit_buffer
  submit_buffer-total b c ready =
      if_cases (λ (d : Ready). (total g d.queue ≡ total g c.queue + g b) × (d.initialized ≡ true))
        (not c.initialized) _ _ (λ absent. cc)
        (λ present. (
          omega (
            arith,
            ap (total g) (K.push_last_appends c.queue b),
            total-append g c.queue (b ∷ []),
          ),
          ready,
        ))

module _ (K : Lst) (S : SinkApi) (g : Fragment → ℕ) where
  -- What the steps of other threads make of a station in which n writers are registered.
  abbrev IsActed : ℕ → Station S → Station S → Type 0
  IsActed more s t =
      (waiting g t ≡ waiting g s + more)
      × (t.ready.initialized ≡ true)
      × (length t.writers ≡ length s.writers)
      × (t.recycled ≡ s.recycled)

  acted :
      (acts : List Act) (s : Station S)
      → s.ready.initialized ≡ true
      → IsActed (produced g (length s.writers) acts) s (act_all K S acts s)
  unfolding act_all act
  acted [] s ready = (omega arith, ready, refl, refl)
  acted (submitted b ∷ acts) s ready =
      let (same, still) = submit_buffer-total K g b s.ready ready in
      let (more, initialized, many, kept) = acted acts (act K S (submitted b) s) still in
      (omega arith, initialized, many, kept)
  acted (pushed n ∷ acts) s ready =
      let (same, still, count) = push_nth-total K g n s.writers s.ready ready in
      let (more, initialized, many, kept) = acted acts (act K S (pushed n) s) still in
      (omega (arith, ap (λ m. produced g m acts) count), initialized, many ∙ count, kept)
  acted (filled n b ∷ acts) s ready =
      let (same, count) = fill_nth-total K g n b s.writers in
      let (more, initialized, many, kept) = acted acts (act K S (filled n b) s) ready in
      (omega (arith, ap (λ m. produced g m acts) count), initialized, many ∙ count, kept)

  held_by-empty : (ws : List Writer) → All IsEmpty ws → held_by_all g ws ≡ 0
  held_by-empty [] none_held = refl
  held_by-empty (w ∷ ws) ((no_fragments, no_buffer), none_held) =
      omega
        (arith, ap (total g) no_fragments, ap (weight_of g) no_buffer, held_by-empty ws none_held)

  -- What a round makes of a station.
  round-total :
      (now : ℕ) (s : Station S)
      → s.ready.initialized ≡ true
      → let t = round K S now s in
        (waiting g t ≡ 0)
        × (t.ready.initialized ≡ true)
        × IsDrained t
        × (total g t.recycled ≡ total g s.recycled + waiting g s)
        × (length t.writers ≡ length s.writers)
  round-total now s ready =
      let ((queue, writers, svc), sink, recycled, services, cleared, still, many) =
        round-IsServed K S now s ready in
      (
        omega (arith, ap (total g) queue, held_by-empty (round K S now s).writers writers),
        still ∙ ready,
        (queue, writers, svc),
        omega (
          arith,
          ap (total g) recycled,
          total-append g s.recycled (pending s),
          total-append g s.ready.queue (chains_of s.writers),
          chains_of-total K g s.writers,
        ),
        many,
      )

  -- The loop in a registry of n writers, given that it is stopped.
  abbrev pub IsStopped : ℕ → List (Signal × ℕ × List Act) → Station S → Bool × Station S → Type 0
  IsStopped n waits s r =
      (r.0 ≡ true)
      × IsDrained r.1
      × (total g r.1.recycled ≡ total g s.recycled + waiting g s + produced_until_stop g n waits)

  -- One wait, given what the rest of the loop does if it is stopped later.
  stopped :
      (signal : Signal) (now : ℕ) (acts : List Act) (waits : List (Signal × ℕ × List Act))
      (s u t : Station S)
      → waiting g u ≡ waiting g s + produced g (length s.writers) acts
      → u.recycled ≡ s.recycled
      → waiting g t ≡ 0
      → IsDrained t
      → total g t.recycled ≡ total g u.recycled + waiting g u
      → (length u.writers ≡ length s.writers) × (length t.writers ≡ length u.writers)
      → (rest : Bool × Station S) → (is_stop signal || has_stop waits) ≡ true
      → (has_stop waits ≡ true → IsStopped (length t.writers) waits t rest)
      → IsStopped
          (length s.writers)
          ((signal, now, acts) ∷ waits)
          s
          (if is_stop signal then (true, t) else rest)
  stopped Signal.stop now acts waits s u t more kept empty drained recycled count rest stops later =
      (refl, drained, omega (arith, ap (total g) kept))
  stopped Signal.wake now acts waits s u t more kept empty drained recycled (many, count) rest stops
        later =
      let (ended, none_left, sum) = later stops in
      (
        ended,
        none_left,
        omega (arith, ap (total g) kept, ap (λ n. produced_until_stop g n waits) (count ∙ many)),
      )
  stopped Signal.timeout now acts waits s u t more kept empty drained recycled (many, count) rest
        stops later =
      let (ended, none_left, sum) = later stops in
      (
        ended,
        none_left,
        omega (arith, ap (total g) kept, ap (λ n. produced_until_stop g n waits) (count ∙ many)),
      )

  -- Whatever the other threads submit, park or hand over between its rounds, the loop of the
  -- worker on an initialised core, once a stop is signalled, ends with nothing left in the service
  -- buffers, the ready queue or any writer; and what it gave back to the pool is, buffer for
  -- buffer, what waited at the start and what was produced until the stop: under every weight of
  -- buffers, the two sums agree.
  pub worker_main-IsStopped :
      (waits : List (Signal × ℕ × List Act)) (s : Station S)
      → s.ready.initialized ≡ true
      → has_stop waits ≡ true
      → IsStopped (length s.writers) waits s (worker_main K S waits s)
  unfolding worker_main
  worker_main-IsStopped [] s ready stops = cc
  worker_main-IsStopped ((signal, now, acts) ∷ waits) s ready stops =
      let (more, initialized, many, kept) = acted acts s ready in
      let u = act_all K S acts s in
      let (empty, still, drained, recycled, count) = round-total now u initialized in
      stopped signal now acts waits s u (round K S now u) more kept empty drained recycled
        (many, count) (worker_main K S waits (round K S now u)) stops
        (λ later. worker_main-IsStopped waits (round K S now u) still later)
