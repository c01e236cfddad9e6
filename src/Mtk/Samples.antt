-- ===== src/Mtk/Samples.antt =====
-- What emit records of a sample.
use p.Prelude.{
  ℕ, ◌+◌, ◌%◌, ◌^◌, ◌≤◌, ◌<◌, ◌≡◌, refl, sym, ap, ◌∙◌, ◌⊎◌, inl, inr, Bool, true, false, ◌&&◌, not,
  Option, none, some, List, ◌++◌, length, arith, if_cases, All, length-append,
}
use mathlib.Core.Path.{subst}
use mathlib.Core.List.{append_assoc}
use p.Kit.{Lst}
use p.Budget.{word}
use p.Core.Descriptor.{ℤ, pos, negsuc}
use p.Core.Drops.{Dropped}
use p.Writer.{Fragment, Writer, hdr_size, cursor}
use p.Writer.Trace.{body_of}
use p.Writer.Fragments.{bodies, bytes}
use p.Writer.Thread.{Thread, Wait, body_with, make_ready, park_done}
use p.Writer.Thread.Ready.{
  recorded, IsSealed, IsResting, IsSteady, IsReady, body_with-cursor, buf_max-park_done,
  make_ready-IsReady, park_done-IsSteady, bytes-park_done,
}
use p.Mtk.{
  item_size, packet_metrics, item_bytes, is_unknown, drop_metric, write_sample, sampled, emit,
}

length-item_bytes : (now n value : ℕ) → length (item_bytes now (pos n) value) ≡ item_size
length-item_bytes now n value = refl

-- The outcome of emit: a sample that is recorded once, or a drop that is counted, or a refusal.
abbrev pub IsEmitted : Bool → ℕ → ℤ → ℕ → Wait → ℕ → Thread → Option (Bool × Thread) → Type 0
IsEmitted present count id value wait now t none = ⊥
IsEmitted present count id value wait now t (some (ok, u)) =
    IsSteady u
    × (u.writer.buf_max ≡ t.writer.buf_max)
    × (((ok ≡ true)
          × (present ≡ true)
          × (is_unknown count id ≡ false)
          × (recorded u ≡ recorded t ++ item_bytes now id value)
          × (u.dropped ≡ t.dropped))
        ⊎ ((ok ≡ false)
            × (present ≡ true)
            × (is_unknown count id ≡ false)
            × (wait.answer ≡ false)
            × (recorded u ≡ recorded t)
            × (u.dropped ≡ (drop_metric t).dropped))
        ⊎ ((ok ≡ false) × ((present && not (is_unknown count id)) ≡ false) × (u ≡ t)))

recorded_sample :
    (v : Thread) (b sampled : Fragment) (w : Writer) (item : List ℕ)
    → v.writer.buffer ≡ some b
    → sampled.body ≡ b.body ++ item
    → bytes w ≡ bodies v.writer.fragments ++ sampled.body
    → recorded (record v { writer = w }) ≡ recorded v ++ item
recorded_sample v b sampled w item e held grown =
    ap (◌++◌ (bodies v.batch)) (
      grown
      ∙ ap (◌++◌ (bodies v.writer.fragments)) held
      ∙ sym (append_assoc (bodies v.writer.fragments) b.body item)
      ∙ ap (λ o. (bodies v.writer.fragments ++ body_of o) ++ item) (sym e))
    ∙ sym (append_assoc (bodies v.batch) (bytes v.writer) item)

module _ (K : Lst) where
  sample-IsEmitted :
      (count n value now : ℕ) (wait : Wait) (t v : Thread) (b : Fragment)
      → is_unknown count (pos n) ≡ false
      → recorded v ≡ recorded t
      → v.dropped ≡ t.dropped
      → v.writer.buf_max ≡ t.writer.buf_max
      → All IsSealed v.batch
      → All IsSealed v.writer.fragments
      → v.writer.buf_max < 2 ^ 16
      → v.writer.buffer ≡ some b
      → v.writer.buf_used ≡ cursor b
      → cursor b + item_size ≤ v.writer.buf_max
      → IsEmitted true count (pos n) value wait now t (write_sample K (pos n) value now v (some b))
  unfolding write_sample
  sample-IsEmitted count n value now wait t v b known same counts limit batch fragments small e used
        fits =
      let item = item_bytes now (pos n) value in
      let held = body_with-cursor v.writer.buf_used item b used in
      let sampled : Fragment = record b {
        size = (v.writer.buf_used + item_size) % 2 ^ 16;
        stop_time = now;
        body = body_with v.writer.buf_used item b;
      } in
      let long : cursor sampled ≡ cursor b + item_size =
        omega (arith, ap length held, length-append b.body item, length-item_bytes now n value) in
      let u : Thread = record v {
        writer = record v.writer { buf_used = v.writer.buf_used + item_size };
      } in
      (
        park_done-IsSteady K item_size sampled u batch fragments small (omega arith) (omega arith)
            (omega arith),
        buf_max-park_done K item_size sampled u.writer ∙ limit,
        inl (
          refl,
          refl,
          known,
          recorded_sample v b sampled (park_done K item_size sampled u.writer) item e held
                (bytes-park_done K item_size sampled u.writer)
              ∙ ap (λ l. l ++ item) same,
          counts,
        ),
      )

  sampled-IsEmitted :
      (count n value now : ℕ) (wait : Wait) (t : Thread) (r : Bool × Thread)
      → is_unknown count (pos n) ≡ false
      → t.writer.buf_max < 2 ^ 16
      → IsReady item_size wait t r
      → IsEmitted true count (pos n) value wait now t (sampled K (pos n) value now r)
  sampled-IsEmitted count n value now wait t (true, v) known small
        (same, counts, limit, batch, fragments, inl (_, (b, e, sealed, used, fits))) =
      subst
        (λ o. IsEmitted true count (pos n) value wait now t (write_sample K (pos n) value now v o))
        (sym e)
        (sample-IsEmitted count n value now wait t v b known same counts limit batch fragments
          (omega arith) e used fits)
  sampled-IsEmitted count n value now wait t (false, v) known small
        (same, counts, limit, batch, fragments, inr (_, refused, gone)) =
      (
        record {
          batch = batch;
          fragments = fragments;
          resting = subst (IsResting v.writer) (sym gone) tt;
          small = omega arith;
        },
        limit,
        inr (
            inl (
              refl,
              refl,
              known,
              refused,
              same,
              ap (λ (d : Dropped). (record d { metrics = (d.metrics + 1) % word })) counts,
            )),
      )
  sampled-IsEmitted count n value now wait t (true, v) known small
        (same, counts, limit, batch, fragments, inr (e, refused, gone)) =
      cc
  sampled-IsEmitted count n value now wait t (false, v) known small
        (same, counts, limit, batch, fragments, inl (e, room)) =
      cc

  -- A call of emit, by a thread between two records with buffers that hold a sample: without a
  -- core, or for an id that was never created, it changes nothing; otherwise what the thread has
  -- recorded, the batch of the worker included, grows by exactly the encoded sample, or no buffer
  -- has come, nothing changes and one drop is counted. Every buffer in the chain stays sealed with
  -- its size.
  pub emit-IsEmitted :
      (present : Bool) (count : ℕ) (id : ℤ) (value : ℕ) (wait : Wait) (now : ℕ) (t : Thread)
      → hdr_size + item_size ≤ t.writer.buf_max
      → IsSteady t
      → IsEmitted present count id value wait now t (emit K present count id value wait now t)
  unfolding emit
  emit-IsEmitted false count id value wait now t large steady =
      (steady, refl, inr (inr (refl, refl, refl)))
  emit-IsEmitted true count (negsuc n) value wait now t large steady =
      (steady, refl, inr (inr (refl, refl, refl)))
  emit-IsEmitted true count (pos n) value wait now t large steady =
      if_cases (IsEmitted true count (pos n) value wait now t) (is_unknown count (pos n)) _ _
        (λ unknown. (steady, refl, inr (inr (refl, ap not unknown, refl))))
        (λ known.
          sampled-IsEmitted count n value now wait t (make_ready K item_size packet_metrics wait t)
            known steady.small (make_ready-IsReady K item_size packet_metrics wait t large steady))
