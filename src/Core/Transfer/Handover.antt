-- ===== src/Core/Transfer/Handover.antt =====
-- What core_push and drain_writers hand over.
use p.Prelude.{
  suc, ◌+◌, ◌<◌, ◌≡◌, refl, sym, ap, ◌∙◌, ◌⊎◌, inl, inr, true, not, Option, none, some, List, [],
  ◌∷◌, ◌++◌, ltb, ◌==◌, length, arith, if_cases, length-append, All,
}
use mathlib.Core.Path.{subst}
use mathlib.Core.List.{append_assoc, append-nil}
use p.Kit.{Lst, visit}
use p.Writer.{Fragment, Writer, pull}
use p.Writer.Pull.{tail_of, chain_of, pull-IsPulled}
use p.Core.Transfer.{Ready, submit_buffer, submit_chain, with_tail, core_push, pull_all}

-- The buffers of the writers, in the order of the registry.
abbrev pub chains_of : List Writer → List Fragment
chains_of [] = []
chains_of (w ∷ ws) = chain_of w ++ chains_of ws

-- A writer without buffers.
abbrev pub IsEmpty : Writer → Type 0
IsEmpty w = (w.fragments ≡ []) × (w.buffer ≡ none)

-- The queue has taken the buffers of the writer.
abbrev pub IsPushed : Writer → Ready → Writer × Ready → Type 0
IsPushed w c (v, d) =
    IsEmpty v
    × (v.buf_used ≡ 0)
    × (d.queue ≡ c.queue ++ chain_of w)
    × (d.initialized ≡ c.initialized)
    × ((d.wakes ≡ c.wakes + 1) ⊎ ((d.wakes ≡ c.wakes) × IsEmpty w))

module _ (K : Lst) where
  pushed_all :
      (chain queue : List Fragment) → visit (λ b q. K.push_last q b) chain queue ≡ queue ++ chain
  pushed_all [] queue = sym (append-nil queue)
  pushed_all (b ∷ chain) queue =
      pushed_all chain (K.push_last queue b)
      ∙ ap (λ q. q ++ chain) (K.push_last_appends queue b)
      ∙ append_assoc queue (b ∷ []) chain

  submit_chain_lem :
      (chain : List Fragment) (c : Ready)
      → c.initialized ≡ true
      → 0 < length chain
      → submit_chain K chain c ≡ ([], record c { queue = c.queue ++ chain; wakes = c.wakes + 1 })
  unfolding submit_chain
  submit_chain_lem chain c ready full =
      let taken : List Fragment × Ready =
        ([], record c { queue = c.queue ++ chain; wakes = c.wakes + 1 }) in
      if_cases (λ (r : List Fragment × Ready). r ≡ taken) (not c.initialized) _ _ (λ absent. cc)
        (λ present.
          if_cases (λ (r : List Fragment × Ready). r ≡ taken) (K.size chain == 0) _ _
            (λ empty. absurd (ground (arith, empty, K.size_counts chain)))
            (λ some_left.
              ap
                (λ (r : List Fragment × List Fragment).
                  (r.1, record c { queue = r.0; wakes = c.wakes + 1 }))
                (K.clear_visits (λ b q. K.push_last q b) chain c.queue
                  ∙ ap (λ (q : List Fragment). (q, [])) (pushed_all chain c.queue))))

  with_tail_lem :
      (fragments : List Fragment) (o : Option Fragment)
      → with_tail K fragments o ≡ fragments ++ tail_of o
  with_tail_lem fragments none = sym (append-nil fragments)
  with_tail_lem fragments (some b) = K.push_last_appends fragments b

  length-with_tail :
      (fragments : List Fragment) (o : Option Fragment)
      → 0 < length fragments
      → 0 < length (with_tail K fragments o)
  length-with_tail fragments none h = h
  length-with_tail fragments (some b) h =
      omega (arith, ap length (K.push_last_appends fragments b), length-append fragments (b ∷ []))

  none_left : (l : List Fragment) → length l ≡ 0 → l ≡ []
  none_left [] e = refl
  none_left (b ∷ l) e = absurd (omega arith)

  buffer-IsPushed :
      (w : Writer) (c : Ready) (o : Option Fragment)
      → c.initialized ≡ true
      → w.fragments ≡ []
      → w.buffer ≡ o
      → IsPushed w c (record w { buffer = none; buf_used = 0 }, submit_buffer K o c)
  unfolding submit_buffer
  buffer-IsPushed w c none ready empty e = (
    (empty, refl),
    refl,
    sym (append-nil c.queue)
        ∙ ap (◌++◌ c.queue)
            (ap (λ l. l ++ tail_of none) (sym empty) ∙ ap (λ o. w.fragments ++ tail_of o) (sym e)),
    refl,
    inr (refl, (empty, e)),
  )
  buffer-IsPushed w c (some b) ready empty e =
      if_cases (λ (d : Ready). IsPushed w c (record w { buffer = none; buf_used = 0 }, d))
        (not c.initialized) _ _ (λ absent. cc)
        (λ present. (
          (empty, refl),
          refl,
          K.push_last_appends c.queue b
              ∙ ap (◌++◌ c.queue) (
                  ap (λ l. l ++ tail_of (some b)) (sym empty)
                  ∙ ap (λ o. w.fragments ++ tail_of o) (sym e)),
          refl,
          inl refl,
        ))

  -- On an initialised core, core_push appends the buffers of its writer to the ready queue in the
  -- order in which they were filled, wakes the worker once, unless there was no buffer, and leaves
  -- the writer without buffers and with no byte used.
  pub core_push-IsPushed :
      (w : Writer) (c : Ready) → c.initialized ≡ true → IsPushed w c (core_push K w c)
  unfolding core_push
  core_push-IsPushed w c ready =
      if_cases (IsPushed w c) (ltb 0 (K.size w.fragments)) _ _
        (λ full.
          let chain = with_tail K w.fragments w.buffer in
          subst
            (λ (r : List Fragment × Ready).
              IsPushed w c (record w { fragments = r.0; buffer = none; buf_used = 0 }, r.1))
            (sym (
              submit_chain_lem chain c ready (
                length-with_tail w.fragments w.buffer
                  (ground (arith, full, K.size_counts w.fragments)))))
            (
              (refl, refl),
              refl,
              ap (◌++◌ c.queue) (with_tail_lem w.fragments w.buffer),
              refl,
              inl refl,
            ))
        (λ none_full.
          buffer-IsPushed w c w.buffer ready
            (none_left w.fragments (ground (arith, none_full, K.size_counts w.fragments))) refl)

  pub drain_writers-All :
      (ws : List Writer) (io_data : List Fragment)
      → ((pull_all K ws io_data).0 ≡ io_data ++ chains_of ws)
        × All IsEmpty (pull_all K ws io_data).1
  unfolding pull_all
  drain_writers-All [] io_data = (sym (append-nil io_data), tt)
  drain_writers-All (w ∷ ws) io_data =
      let (same, none_left, no_buffer) = pull-IsPulled K io_data w in
      let (all, empty) = drain_writers-All ws (pull K io_data w).0 in
      (
        all ∙ ap (λ q. q ++ chains_of ws) same ∙ append_assoc io_data (chain_of w) (chains_of ws),
        ((none_left, no_buffer), empty),
      )

  pub length-pull_all :
      (ws : List Writer) (io_data : List Fragment) → length (pull_all K ws io_data).1 ≡ length ws
  unfolding pull_all
  length-pull_all [] io_data = refl
  length-pull_all (w ∷ ws) io_data = ap suc (length-pull_all ws (pull K io_data w).0)
