-- ===== src/Writer/Thread/Ready.antt =====
-- A writer between two records, and the buffer with which a record starts.
use p.Prelude.{
  ℕ, ◌+◌, ◌-◌, ◌^◌, ◌≤◌, ◌<◌, ◌≡◌, refl, sym, ap, ◌∙◌, ◌⊎◌, inl, inr, Bool, true, false, Option,
  none, some, List, [], ◌∷◌, ◌++◌, ltb, length, take, arith, if_cases, All, All-append,
  take-append_length,
}
use mathlib.Core.Path.{subst}
use mathlib.Core.List.{append-nil}
use p.Kit.{Lst}
use p.Writer.{Fragment, Writer, hdr_size, cursor, pull, hand_over}
use p.Writer.Trace.{body_of}
use p.Writer.Fragments.{bodies, bytes, bodies-append}
use p.Writer.Pull.{pull_finished, bodies-append_list}
use p.Writer.Thread.{
  Thread, Wait, space, body_with, start_buffer, park, park_full, meanwhile, obtain, make_ready,
  park_done,
}

-- The bytes that a thread has recorded, those that the worker holds first.
abbrev pub recorded : Thread → List ℕ
recorded t = bodies t.batch ++ bytes t.writer

-- A finished buffer: its header says how far it is filled.
abbrev pub IsSealed : Fragment → Type 0
IsSealed b = b.size ≡ cursor b

-- The buffer in progress between two records.
abbrev pub IsResting : Writer → Option Fragment → Type 0
IsResting w none = Unit {0}
IsResting w (some b) = IsSealed b × (w.buf_used ≡ cursor b) × (cursor b ≤ w.buf_max)

-- A writer between two records, with what the worker holds of it.
pub record IsSteady (t : Thread) : Type 0 where
  pub batch : All IsSealed t.batch
  pub fragments : All IsSealed t.writer.fragments
  pub resting : IsResting t.writer t.writer.buffer
  pub small : t.writer.buf_max < 2 ^ 16

-- The outcome of make_ready: nothing recorded has changed, and there is room for a record, or no
-- buffer has come.
abbrev pub IsReady : ℕ → Wait → Thread → Bool × Thread → Type 0
IsReady needed wait t (ready, u) =
    (recorded u ≡ recorded t)
    × (u.dropped ≡ t.dropped)
    × (u.writer.buf_max ≡ t.writer.buf_max)
    × All IsSealed u.batch
    × All IsSealed u.writer.fragments
    × (((ready ≡ true)
          × ((b : Fragment) × (u.writer.buffer ≡ some b)
              × IsSealed b
              × (u.writer.buf_used ≡ cursor b)
              × (cursor b + needed ≤ u.writer.buf_max)))
        ⊎ ((ready ≡ false) × (wait.answer ≡ false) × (u.writer.buffer ≡ none)))

-- A body whose end is the cursor is kept by a store there.
pub body_with-cursor :
    (used : ℕ) (stored : List ℕ) (b : Fragment)
    → used ≡ cursor b
    → body_with used stored b ≡ b.body ++ stored
body_with-cursor used stored b e =
    let at : used - hdr_size ≡ length b.body = omega arith in
    ap (λ n. take n b.body ++ stored) at
    ∙ ap (λ l. l ++ stored)
        (ap (take (length b.body)) (sym (append-nil b.body)) ∙ take-append_length b.body [])

module _ (K : Lst) where
  pub pushed-IsSealed :
      (fragments : List Fragment) (b : Fragment)
      → All IsSealed fragments
      → IsSealed b
      → All IsSealed (K.push_last fragments b)
  pushed-IsSealed fragments b all one =
      subst (All IsSealed) (sym (K.push_last_appends fragments b))
        (All-append IsSealed fragments (b ∷ []) all (one, tt))

  pub bytes-park : (b : Fragment) (w : Writer) → w.buffer ≡ some b → bytes (park K b w) ≡ bytes w
  unfolding park
  bytes-park b w e =
      append-nil (bodies (K.push_last w.fragments b))
      ∙ ap bodies (K.push_last_appends w.fragments b)
      ∙ bodies-append w.fragments b
      ∙ ap (λ o. bodies w.fragments ++ body_of o) (sym e)

  -- What meanwhile keeps of a thread without a buffer in progress.
  abbrev IsKept : Thread → Thread → Type 0
  IsKept t u =
      (recorded u ≡ recorded t)
      × (u.dropped ≡ t.dropped)
      × (u.writer.buf_max ≡ t.writer.buf_max)
      × All IsSealed u.batch
      × All IsSealed u.writer.fragments
      × (u.writer.buffer ≡ none)

  pulled-IsKept :
      (t : Thread)
      → t.writer.buffer ≡ none
      → All IsSealed t.batch
      → All IsSealed t.writer.fragments
      → IsKept t (record t {
        batch = t.batch ++ t.writer.fragments;
        writer = record t.writer { fragments = [] };
      })
  pulled-IsKept t e batch fragments = (
    ap (λ o. bodies (t.batch ++ t.writer.fragments) ++ body_of o) e
        ∙ append-nil (bodies (t.batch ++ t.writer.fragments))
        ∙ bodies-append_list t.batch t.writer.fragments
        ∙ ap (◌++◌ (bodies t.batch)) (
            sym (append-nil (bodies t.writer.fragments))
            ∙ ap (λ o. bodies t.writer.fragments ++ body_of o) (sym e)),
    refl,
    refl,
    All-append IsSealed t.batch t.writer.fragments batch fragments,
    tt,
    e,
  )

  meanwhile-IsKept :
      (wait : Wait) (t : Thread)
      → t.writer.buffer ≡ none
      → All IsSealed t.batch
      → All IsSealed t.writer.fragments
      → IsKept t (meanwhile K wait t)
  unfolding meanwhile
  meanwhile-IsKept wait t e batch fragments =
      if_cases (IsKept t) wait.pulled _ _
        (λ pulled.
          subst (λ (r : List Fragment × Writer). IsKept t (record t { batch = r.0; writer = r.1 }))
            (sym (pull_finished K t.batch t.writer e)) (pulled-IsKept t e batch fragments))
        (λ quiet. (refl, refl, refl, batch, fragments, e))

  obtain-IsReady :
      (needed packet_type : ℕ) (wait : Wait) (t : Thread)
      → hdr_size + needed ≤ t.writer.buf_max
      → t.writer.buffer ≡ none
      → All IsSealed t.batch
      → All IsSealed t.writer.fragments
      → IsReady needed wait t (obtain K packet_type wait t none)
  unfolding obtain start_buffer
  obtain-IsReady needed packet_type wait t large e batch fragments =
      let (same, counts, limit, b, f, gone) = meanwhile-IsKept wait t e batch fragments in
      if_cases (IsReady needed wait t) wait.answer _ _
        (λ given. (
          ap
                (λ o.
                  bodies (meanwhile K wait t).batch
                  ++ (bodies (meanwhile K wait t).writer.fragments ++ body_of o))
                (sym gone)
              ∙ same,
          counts,
          limit,
          b,
          f,
          inl (refl, (_, refl, refl, refl, omega (arith, limit))),
        ))
        (λ refused. (same, counts, limit, b, f, inr (refl, refused, gone)))

  IsReady-of :
      (needed : ℕ) (wait : Wait) (t v : Thread) (r : Bool × Thread)
      → recorded v ≡ recorded t
      → v.dropped ≡ t.dropped
      → v.writer.buf_max ≡ t.writer.buf_max
      → IsReady needed wait v r
      → IsReady needed wait t r
  IsReady-of needed wait t v (ready, u) same counts limit
        (same', counts', limit', batch, fragments, room) =
      (same' ∙ same, counts' ∙ counts, limit' ∙ limit, batch, fragments, room)

  -- The state after a full buffer was parked.
  parked-IsReady :
      (needed packet_type : ℕ) (wait : Wait) (t : Thread) (o : Option Fragment)
      → t.writer.buffer ≡ o
      → hdr_size + needed ≤ t.writer.buf_max
      → IsSteady t
      → let w = park_full K needed t.writer o in
        IsReady needed wait t (obtain K packet_type wait (record t { writer = w }) w.buffer)
  unfolding park_full obtain
  parked-IsReady needed packet_type wait t none e large steady =
      subst (λ o. IsReady needed wait t (obtain K packet_type wait t o)) (sym e)
        (obtain-IsReady needed packet_type wait t large e steady.batch steady.fragments)
  parked-IsReady needed packet_type wait t (some b) e large steady =
      let (sealed, used, within) = subst (IsResting t.writer) e steady.resting in
      if_cases
        (λ w. IsReady needed wait t (obtain K packet_type wait (record t { writer = w }) w.buffer))
        (ltb (space t.writer) needed) _ _
        (λ full.
          IsReady-of needed wait t (record t { writer = park K b t.writer })
            (obtain K packet_type wait (record t { writer = park K b t.writer }) none)
            (ap (◌++◌ (bodies t.batch)) (bytes-park b t.writer e)) refl refl
            (obtain-IsReady needed packet_type wait (record t { writer = park K b t.writer }) large
              refl steady.batch (pushed-IsSealed t.writer.fragments b steady.fragments sealed)))
        (λ free.
          subst (λ o. IsReady needed wait t (obtain K packet_type wait t o)) (sym e)
            (
              refl,
              refl,
              refl,
              steady.batch,
              steady.fragments,
              inl (refl, (b, e, sealed, used, ground (arith, steady.small))),
            ))

  pub make_ready-IsReady :
      (needed packet_type : ℕ) (wait : Wait) (t : Thread)
      → hdr_size + needed ≤ t.writer.buf_max
      → IsSteady t
      → IsReady needed wait t (make_ready K needed packet_type wait t)
  unfolding make_ready
  make_ready-IsReady needed packet_type wait t large steady =
      parked-IsReady needed packet_type wait t t.writer.buffer refl large steady

  -- The writer after the buffer b with its record was parked or kept.
  pub park_done-IsSteady :
      (needed : ℕ) (b : Fragment) (t : Thread)
      → All IsSealed t.batch
      → All IsSealed t.writer.fragments
      → t.writer.buf_max < 2 ^ 16
      → IsSealed b
      → t.writer.buf_used ≡ cursor b
      → cursor b ≤ t.writer.buf_max
      → IsSteady (record t { writer = park_done K needed b t.writer })
  unfolding park_done park
  park_done-IsSteady needed b t batch fragments small sealed used within =
      if_cases (λ w. IsSteady (record t { writer = w })) (ltb (space t.writer) needed) _ _
        (λ full. record {
          batch = batch;
          fragments = pushed-IsSealed t.writer.fragments b fragments sealed;
          resting = tt;
          small = small;
        })
        (λ free. record {
          batch = batch;
          fragments = fragments;
          resting = (sealed, used, within);
          small = small;
        })

  pub bytes-park_done :
      (needed : ℕ) (b : Fragment) (w : Writer)
      → bytes (park_done K needed b w) ≡ bodies w.fragments ++ b.body
  unfolding park_done park
  bytes-park_done needed b w =
      if_cases (λ v. bytes v ≡ bodies w.fragments ++ b.body) (ltb (space w) needed) _ _
        (λ full.
          append-nil (bodies (K.push_last w.fragments b))
          ∙ ap bodies (K.push_last_appends w.fragments b)
          ∙ bodies-append w.fragments b)
        (λ free. refl)

  pub buf_max-park_done :
      (needed : ℕ) (b : Fragment) (w : Writer) → (park_done K needed b w).buf_max ≡ w.buf_max
  unfolding park_done park
  buf_max-park_done needed b w =
      if_cases (λ (v : Writer). v.buf_max ≡ w.buf_max) (ltb (space w) needed) _ _ (λ full. refl)
        (λ free. refl)

  hand_over-thread_id :
      (w : Writer) (m : List Fragment × List Fragment) (o : Option Fragment)
      → (hand_over K w m o).1.thread_id ≡ w.thread_id
  unfolding hand_over
  hand_over-thread_id w (left, moved) none = refl
  hand_over-thread_id w (left, moved) (some b) = refl

  meanwhile-thread_id :
      (wait : Wait) (t : Thread) → (meanwhile K wait t).writer.thread_id ≡ t.writer.thread_id
  unfolding meanwhile pull
  meanwhile-thread_id wait t =
      if_cases (λ (u : Thread). u.writer.thread_id ≡ t.writer.thread_id) wait.pulled _ _
        (λ pulled. hand_over-thread_id t.writer _ t.writer.buffer) (λ quiet. refl)

  obtain-thread_id :
      (packet_type : ℕ) (wait : Wait) (t : Thread) (o : Option Fragment)
      → (obtain K packet_type wait t o).1.writer.thread_id ≡ t.writer.thread_id
  unfolding obtain start_buffer
  obtain-thread_id packet_type wait t none =
      if_cases (λ (r : Bool × Thread). r.1.writer.thread_id ≡ t.writer.thread_id) wait.answer _ _
        (λ given. meanwhile-thread_id wait t) (λ refused. meanwhile-thread_id wait t)
  obtain-thread_id packet_type wait t (some b) = refl

  park_full-thread_id :
      (needed : ℕ) (w : Writer) (o : Option Fragment)
      → (park_full K needed w o).thread_id ≡ w.thread_id
  unfolding park_full park
  park_full-thread_id needed w none = refl
  park_full-thread_id needed w (some b) =
      if_cases (λ (v : Writer). v.thread_id ≡ w.thread_id) (ltb (space w) needed) _ _ (λ full. refl)
        (λ free. refl)

  pub make_ready-thread_id :
      (needed packet_type : ℕ) (wait : Wait) (t : Thread)
      → (make_ready K needed packet_type wait t).1.writer.thread_id ≡ t.writer.thread_id
  unfolding make_ready
  make_ready-thread_id needed packet_type wait t =
      let w = park_full K needed t.writer t.writer.buffer in
      obtain-thread_id packet_type wait (record t { writer = w }) w.buffer
      ∙ park_full-thread_id needed t.writer t.writer.buffer
