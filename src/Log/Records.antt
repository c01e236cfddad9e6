-- ===== src/Log/Records.antt =====
-- The record that a call of send leaves.
use p.Prelude.{
  ℕ, ◌+◌, ◌-◌, ◌%◌, ◌^◌, ◌≤◌, ◌<◌, ◌≡◌, refl, sym, ap, ◌∙◌, ◌⊎◌, inl, inr, some, List, [], ◌++◌,
  ltb, length, take, arith, if_cases, Bool-cases, length-append, All,
}
use mathlib.Core.Path.{subst}
use mathlib.Core.List.{append_assoc, append-nil}
use p.Kit.{Lst}
use p.Core.Descriptor.{LogDesc, AttrDesc}
use p.Core.Service.{align_up_8}
use p.Writer.{Fragment, Writer, hdr_size, cursor}
use p.Writer.Trace.{body_of}
use p.Writer.Fragments.{bodies, bytes}
use p.Writer.Thread.{Thread, space, body_with, park_done}
use p.Writer.Thread.Ready.{
  recorded, IsSealed, IsSteady, body_with-cursor, park_done-IsSteady, bytes-park_done,
}
use p.Log.{Item, in_args, Step, unreadable, discarded, stepped, ◌>>=◌, write_args, write_attrs}
use p.Log.Growth.{args_bytes, AreOfTypes, Grew, Grew->>=, Grew-weaken, HasWritten}
use p.Log.Fields.{write_args-Grew}
use p.Log.Labels.{attrs_bytes, registered, write_attrs-Grew}
use p.Log.Front.{Front, Front-Trace, patch_header-IsPatched, length-header_bytes}
use p.Log.Discard.{discard-IsDiscarded}
use p.Log.Send.{
  Header, header_bytes, item_size, fields_size, min_buffer_space, Call, World, Log, patch,
  patch_header, given_attrs, finish, sent, final_header, ended, first_header, started, write_record,
}
use p.Log.Outcome.{IsRecord, fields, record_header, IsOverrun, IsWrittenAs, IsBegun}

module _ (K : Lst) where
  -- The end of a record whose buffer in progress is b.
  finished :
      (needed : ℕ) (b : Fragment) (t : Thread)
      → needed ≤ 32
      → All IsSealed t.batch
      → All IsSealed t.writer.fragments
      → t.writer.buf_max + 8 < 2 ^ 16
      → IsSealed b
      → t.writer.buf_used ≡ cursor b
      → cursor b ≤ t.writer.buf_max + 7
      → let u : Thread = record t { writer = park_done K needed b t.writer } in
        IsSteady u ⊎ IsOverrun u
  unfolding park_done
  finished needed b t few batch fragments small sealed used within =
      elim (Bool-cases (ltb t.writer.buf_max (cursor b))) [
        | inl beyond ↦
            if_cases
              (λ (w : Writer).
                IsSteady (record t { writer = w }) ⊎ IsOverrun (record t { writer = w }))
              (ltb (space t.writer) needed) _ _
              (λ full. absurd (ground (arith, full, beyond, used, small, within, few)))
              (λ free. inr (batch, fragments, (b, refl, sealed, ground (arith, beyond), within)))
        | inr inside ↦ inl (
            park_done-IsSteady K needed b t batch fragments (omega arith) sealed used
              (ground (arith, inside)))
      ]

-- The locals of send once every field is written.
abbrev IsComplete : Call → LogDesc → Log → Item → Type 0
IsComplete c d l i =
    (i.args_size ≡ length (args_bytes (take d.args_count d.args) c.args))
    × (i.attrs_size ≡ length (attrs_bytes l.registry.descs (given_attrs c.attrs)))
    × (i.attrs_count ≡ registered l.registry.descs (given_attrs c.attrs) % 2 ^ 8)

final_header-record_header :
    (c : Call) (e : World) (d : LogDesc) (l : Log) (i : Item)
    → IsComplete c d l i
    → final_header (first_header c e d l.thread.writer) i ≡ record_header c e d l
final_header-record_header c e d l i (args, attrs, count) =
    ap
      (λ (n : ℕ). record (first_header c e d l.thread.writer) {
        args_size = n % 2 ^ 16;
        attrs_count = i.attrs_count;
        size = align_up_8 (item_size + n + i.attrs_size) % 2 ^ 16;
      })
      args
    ∙ ap
        (λ (n : ℕ). record (first_header c e d l.thread.writer) {
          args_size = length (args_bytes (take d.args_count d.args) c.args) % 2 ^ 16;
          attrs_count = i.attrs_count;
          size =
              align_up_8 (item_size + length (args_bytes (take d.args_count d.args) c.args) + n)
              % 2 ^ 16;
        })
        attrs
    ∙ ap (λ (n : ℕ). record (record_header c e d l) { attrs_count = n }) count

module _ (K : Lst) (c : Call) (e : World) (d : LogDesc) (l : Log) (b : Fragment)
    (begun : IsBegun e l b) where
  abbrev gap : List ℕ
  gap = e.stale (l.thread.writer.buf_used + fields_size) 2

  abbrev front : List ℕ
  front = b.body ++ (header_bytes (first_header c e d l.thread.writer) ++ gap)

  abbrev P : List ℕ → Writer → Type 0
  P = Front l.thread.writer.buf_max l.thread.writer.fragments front

  started-body :
      body_with l.thread.writer.buf_used
        (header_bytes (first_header c e d l.thread.writer) ++ gap)
        b
      ≡ front
  started-body =
      body_with-cursor l.thread.writer.buf_used
        (header_bytes (first_header c e d l.thread.writer) ++ gap) b begun.used

  length-front : length front ≡ length b.body + item_size
  length-front =
      let header = header_bytes (first_header c e d l.thread.writer) in
      omega (
        arith,
        length-append b.body (header ++ gap),
        length-append header gap,
        length-header_bytes (first_header c e d l.thread.writer),
        begun.stale (l.thread.writer.buf_used + fields_size) 2,
      )

  fields-Grew :
      AreOfTypes (take d.args_count d.args) c.args
      → Grew P (fields c d l) (IsComplete c d l) (
          write_args K e.now e.stale (take d.args_count d.args) c.args (started c e d l b)
          >>= write_attrs K e.now l.registry (given_attrs c.attrs))
  fields-Grew typed =
      let args = args_bytes (take d.args_count d.args) c.args in
      let T =
        Front-Trace l.thread.writer.buf_max (omega (arith, begun.small)) l.thread.writer.fragments
          front in
      let large : (s : List ℕ) (v : Writer) → P s v → hdr_size + 256 ≤ v.buf_max =
        λ s v held. omega (arith, held.0, begun.large) in
      let i = started c e d l b in
      Grew->>= P args (fields c d l) (HasWritten in_args (length args) i) _ _ _
        (write_args-Grew K e.now P T large e.stale (take d.args_count d.args) c.args [] i _ typed
          (refl, inl (refl, (_, refl, started-body ∙ sym (append-nil front))))
          (
            refl,
            omega (arith, ap length started-body, length-front, begun.room),
            omega (arith, begun.large),
          ))
        (λ j w held (x, y, z, kept) writing.
          Grew-weaken P _ _ _ _
            (write_attrs-Grew K e.now P T large l.registry (given_attrs c.attrs) args j w
              (omega arith)
              (
                begun.cached.0,
                begun.cached.1 ∙ ap (λ (q : List AttrDesc). q ++ begun.cached.0) (sym kept),
              )
              held writing)
            (λ k (x', y', z', cached). (omega arith, omega arith, omega arith)))

  -- The record with the header h in place of the first one.
  abbrev whole : List ℕ
  whole = (b.body ++ (header_bytes (record_header c e d l) ++ gap)) ++ fields c d l

  length-fields :
      length (fields c d l)
      ≡ length (args_bytes (take d.args_count d.args) c.args)
        + length (attrs_bytes l.registry.descs (given_attrs c.attrs))
  length-fields =
      length-append (args_bytes (take d.args_count d.args) c.args)
        (attrs_bytes l.registry.descs (given_attrs c.attrs))

  -- The padding completes the record.
  padded-IsRecord :
      (pad : List ℕ)
      → length pad
        ≡ align_up_8 (item_size + length (fields c d l)) - (item_size + length (fields c d l))
      → IsRecord c e d l.registry l.thread.writer.thread_id
          ((header_bytes (record_header c e d l) ++ gap) ++ (fields c d l ++ pad))
  padded-IsRecord pad long =
      let header = header_bytes (record_header c e d l) in
      (
        gap,
        pad,
        refl,
        begun.stale (l.thread.writer.buf_used + fields_size) 2,
        omega arith,
        omega (
          arith,
          length-append (header ++ gap) (fields c d l ++ pad),
          length-append (fields c d l) pad,
          length-append header gap,
          length-header_bytes (record_header c e d l),
          begun.stale (l.thread.writer.buf_used + fields_size) 2,
        ),
      )

  -- The bytes of a writer that ends with the padded record.
  recorded-padded :
      (w : Writer) (pad : List ℕ)
      → bytes w ≡ (bodies l.thread.writer.fragments ++ whole) ++ pad
      → recorded (record l.thread { writer = w })
        ≡ recorded l.thread
          ++ ((header_bytes (record_header c e d l) ++ gap) ++ (fields c d l ++ pad))
  recorded-padded w pad held =
      let header = header_bytes (record_header c e d l) ++ gap in
      let before = bodies l.thread.writer.fragments in
      ap (◌++◌ (bodies l.thread.batch)) (
        held
        ∙ append_assoc before whole pad
        ∙ ap (◌++◌ before) (
            append_assoc (b.body ++ header) (fields c d l) pad
            ∙ append_assoc b.body header (fields c d l ++ pad))
        ∙ sym (append_assoc before b.body (header ++ (fields c d l ++ pad)))
        ∙ ap (λ o. (before ++ body_of o) ++ (header ++ (fields c d l ++ pad))) (sym begun.held))
      ∙ sym (
          append_assoc (bodies l.thread.batch) (bytes l.thread.writer)
            (header ++ (fields c d l ++ pad)))

  -- The end of send in the buffer f of the patched writer w.
  finish-IsWrittenAs :
      (i : Item) (w : Writer) (f : Fragment)
      → IsComplete c d l i
      → bytes w ≡ bodies l.thread.writer.fragments ++ whole
      → w.buf_max ≡ l.thread.writer.buf_max
      → All IsSealed w.fragments
      → w.buffer ≡ some f
      → cursor f ≤ w.buf_max
      → IsWrittenAs c e d l (sent i l (finish K e i w (some f)))
  unfolding finish
  finish-IsWrittenAs i w f (args, attrs, count) held limit sealed at within =
      let size = item_size + i.args_size + i.attrs_size in
      let pad = e.stale (cursor f) (align_up_8 size - size) in
      let long = begun.stale (cursor f) (align_up_8 size - size) in
      let used = cursor f + (align_up_8 size - size) in
      let g : Fragment = record f {
        size = used % 2 ^ 16;
        stop_time = e.now;
        body = f.body ++ pad;
      } in
      let w' : Writer = record w { buf_used = used } in
      let t : Thread = record l.thread { writer = w' } in
      let grown = length-append f.body pad in
      let total : size ≡ item_size + length (fields c d l) = omega (arith, length-fields) in
      inl (
        refl,
        (
          _,
          padded-IsRecord pad (omega (arith, long, total)),
          recorded-padded (park_done K min_buffer_space g w') pad (
              bytes-park_done K min_buffer_space g w'
              ∙ sym (append_assoc (bodies w.fragments) f.body pad)
              ∙ ap (λ o. (bodies w.fragments ++ body_of o) ++ pad) (sym at)
              ∙ ap (λ q. q ++ pad) held),
        ),
        refl,
        finished K min_buffer_space g t (omega arith) begun.batch sealed
            (omega (arith, limit, begun.small)) (omega (arith, limit, begun.small)) (omega arith)
            (omega arith),
      )

  -- The end of send, with the counts of the list and the place of the header as they are proved.
  ended-IsWrittenAs :
      (m : Step)
      → Grew P (fields c d l) (IsComplete c d l) m
      → IsWrittenAs c e d l (
          ended K e
            (length l.thread.writer.fragments)
            (length b.body)
            (first_header c e d l.thread.writer)
            l
            m)
  unfolding ended
  ended-IsWrittenAs unreadable held = held
  ended-IsWrittenAs (discarded i) ((s, held), gone) = inr (
      discard-IsDiscarded K (length b.body) (first_header c e d l.thread.writer)
        l.thread.writer.buf_max l.thread.writer.fragments front s i l held gone)
  ended-IsWrittenAs (stepped i) (held, complete, (f, (at, within, large))) =
      let h = first_header c e d l.thread.writer in
      let w =
        patch_header (length l.thread.writer.fragments) (patch (length b.body) (final_header h i))
          i.writer in
      let (kept, limit, sealed, buffer) =
        patch_header-IsPatched l.thread.writer.fragments b.body gap (fields c d l) h
          (final_header h i) i.writer l.thread.writer.buf_max begun.fragments held in
      let (g, there, same) = buffer f at in
      subst (λ o. IsWrittenAs c e d l (sent i l (finish K e i w o))) (sym there)
        (finish-IsWrittenAs i w g complete
          (kept
            ∙ ap
                (λ (q : Header).
                  bodies l.thread.writer.fragments
                  ++ ((b.body ++ (header_bytes q ++ gap)) ++ fields c d l))
                (final_header-record_header c e d l i complete))
          (limit ∙ held.0) sealed there (omega (arith, same, within, limit)))

  pub write_record-IsWrittenAs :
      AreOfTypes (take d.args_count d.args) c.args
      → IsWrittenAs c e d l (write_record K c e d l (some b))
  unfolding write_record
  write_record-IsWrittenAs typed =
      let m =
        write_args K e.now e.stale (take d.args_count d.args) c.args (started c e d l b)
        >>= write_attrs K e.now l.registry (given_attrs c.attrs) in
      let start : l.thread.writer.buf_used - hdr_size ≡ length b.body = omega (arith, begun.used) in
      subst
        (λ n. IsWrittenAs c e d l (
          ended K e n (l.thread.writer.buf_used - hdr_size) (first_header c e d l.thread.writer) l
            m))
        (sym (K.size_counts l.thread.writer.fragments))
        (subst
          (λ n. IsWrittenAs c e d l (
            ended K e (length l.thread.writer.fragments) n (first_header c e d l.thread.writer) l
              m))
          (sym start) (ended-IsWrittenAs m (fields-Grew typed)))
