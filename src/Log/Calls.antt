-- ===== src/Log/Calls.antt =====
-- A call of send as a whole, from the gate to its outcome.
use p.Prelude.{
  ℕ, ◌+◌, ◌%◌, ◌^◌, ◌≤◌, ◌<◌, ◌≡◌, refl, sym, ap, ◌∙◌, ◌⊎◌, inl, inr, Bool, true, false, not,
  Option, none, some, List, ◌++◌, ltb, length, take, arith, if_cases,
}
use mathlib.Core.Path.{subst}
use mathlib.Core.List.{append_assoc, append-nil}
use p.Kit.{Lst}
use p.Budget.{word}
use p.Core.Descriptor.{LogDesc, AttrDesc}
use p.Core.Attributes.{Attrs}
use p.Core.Drops.{Dropped}
use p.Core.LogDescs.{find_desc}
use p.Writer.{Fragment, hdr_size}
use p.Writer.Trace.{body_of}
use p.Writer.Fragments.{bodies}
use p.Writer.Thread.{Thread, make_ready}
use p.Writer.Thread.Ready.{recorded, IsSteady, IsReady, make_ready-IsReady, make_ready-thread_id}
use p.Log.Growth.{AreOfTypes}
use p.Log.Labels.{IsCache}
use p.Log.Outcome.{IsRecord, IsOverrun, IsWrittenAs, IsBegun}
use p.Log.Records.{write_record-IsWrittenAs}
use p.Log.Send.{
  item_size, min_buffer_space, packet_logs, Call, World, Log, threshold, remembered, describe_call,
  described, readied, write_record, send,
}

-- What send needs: a thread between two records, buffers that hold any field and whose size stays
-- below 2^16 with the padding, a cache of the registry, a memory, and a descriptor for the call site
-- whose types the arguments have.
pub record IsCallable (K : Lst) (c : Call) (e : World) (d : LogDesc) (l : Log) : Type 0 where
  pub steady : IsSteady l.thread
  pub large : hdr_size + 256 ≤ l.thread.writer.buf_max
  pub small : l.thread.writer.buf_max + 8 < 2 ^ 16
  pub cached : IsCache l.registry l.cache
  pub stale : (at n : ℕ) → length (e.stale at n) ≡ n
  pub site : (describe_call K c e l (find_desc l.desc_map c.hash)).0 ≡ some d
  pub typed : AreOfTypes (take d.args_count d.args) c.args

-- A record was written, once and whole.
abbrev pub IsSent : Call → World → LogDesc → Log → Bool × Log → Type 0
IsSent c e d l (ok, m) =
    (ok ≡ true)
    × ((item : List ℕ) × IsRecord c e d l.registry l.thread.writer.thread_id item
        × (recorded m.thread ≡ recorded l.thread ++ item))
    × (m.thread.dropped ≡ l.thread.dropped)
    × (IsSteady m.thread ⊎ IsOverrun m.thread)

-- The record was rolled back, together with all that the buffer held in which it began.
abbrev pub IsRolledBack : Lst → World → Log → Bool × Log → Type 0
IsRolledBack K e l (ok, m) =
    (ok ≡ false)
    × (m.thread.dropped.logs ≡ (l.thread.dropped.logs + 1) % word)
    × (recorded l.thread
        ≡ recorded m.thread
          ++ body_of
              (make_ready K (min_buffer_space + item_size) packet_logs e.wait
                l.thread).1.writer.buffer)

-- No buffer came.
abbrev pub IsRefused : World → Log → Bool × Log → Type 0
IsRefused e l (ok, m) =
    (ok ≡ false)
    × (e.wait.answer ≡ false)
    × (m.thread.dropped.logs ≡ (l.thread.dropped.logs + 1) % word)
    × (recorded m.thread ≡ recorded l.thread)

-- The outcome of a call past the gate.
abbrev pub IsAnswered : Lst → Call → World → LogDesc → Log → Option (Bool × Log) → Type 0
IsAnswered K c e d l none = ⊥
IsAnswered K c e d l (some r) = IsSent c e d l r ⊎ IsRolledBack K e l r ⊎ IsRefused e l r

module _ (K : Lst) (c : Call) (e : World) (l : Log) where
  remembered-thread :
      (hash : ℕ) (d : Option LogDesc) (m : Log) (t : Thread)
      → remembered hash d (record m { thread = t })
        ≡ ((remembered hash d m).0, record (remembered hash d m).1 { thread = t })
  remembered-thread hash none m t = refl
  remembered-thread hash (some d) m t = refl

  remembered-registry :
      (hash : ℕ) (d : Option LogDesc) (m : Log)
      → ((remembered hash d m).1.registry ≡ m.registry) × ((remembered hash d m).1.cache ≡ m.cache)
  remembered-registry hash none m = (refl, refl)
  remembered-registry hash (some d) m = (refl, refl)

  -- The descriptor does not depend on the thread's buffers.
  describe_call-thread :
      (t : Thread) (o : Option LogDesc)
      → describe_call K c e (record l { thread = t }) o
        ≡ ((describe_call K c e l o).0, record (describe_call K c e l o).1 { thread = t })
  unfolding describe_call
  describe_call-thread t (some d) = refl
  describe_call-thread t none = remembered-thread c.hash _ _ t

  describe_call-registry :
      (o : Option LogDesc)
      → ((describe_call K c e l o).1.registry ≡ l.registry)
        × ((describe_call K c e l o).1.cache ≡ l.cache)
  unfolding describe_call
  describe_call-registry (some d) = (refl, refl)
  describe_call-registry none = remembered-registry c.hash _ _

  -- The outcome of a record that began with the thread u is one of the call.
  written-IsAnswered :
      (d : LogDesc) (m : Log) (r : Option (Bool × Log))
      → let u = (make_ready K (min_buffer_space + item_size) packet_logs e.wait l.thread).1 in
        m.thread ≡ u
        → recorded m.thread ≡ recorded l.thread
        → m.thread.dropped ≡ l.thread.dropped
        → m.thread.writer.thread_id ≡ l.thread.writer.thread_id
        → m.registry ≡ l.registry
        → IsWrittenAs c e d m r
        → IsAnswered K c e d l r
  written-IsAnswered d m none there same counts id registry held = held
  written-IsAnswered d m (some (ok, n)) there same counts id registry
        (inl (done, (item, record_of, grown), kept, after)) =
      inl (
        done,
        (
          item,
          subst (λ (t : ℕ). IsRecord c e d l.registry t item) id
              (subst (λ (a : Attrs). IsRecord c e d a m.thread.writer.thread_id item) registry
                record_of),
          grown ∙ ap (λ q. q ++ item) same,
        ),
        kept ∙ counts,
        after,
      )
  written-IsAnswered d m (some (ok, n)) there same counts id registry
        (inr (failed, fragments, gone, batch, dropped)) =
      inr (
        inl (
          failed,
          dropped ∙ ap (λ (q : Dropped). (q.logs + 1) % word) counts,
          sym same
              ∙ sym (
                  append_assoc (bodies m.thread.batch) (bodies m.thread.writer.fragments)
                    (body_of m.thread.writer.buffer))
              ∙ ap
                  (λ (t : Thread).
                    (bodies m.thread.batch ++ bodies m.thread.writer.fragments)
                    ++ body_of t.writer.buffer)
                  there
              ∙ ap
                  (λ q.
                    q
                    ++ body_of
                        (make_ready K (min_buffer_space + item_size) packet_logs e.wait
                          l.thread).1.writer.buffer)
                  (ap (λ (q : List Fragment). bodies q ++ bodies m.thread.writer.fragments)
                      (sym batch)
                    ∙ ap (λ (q : List Fragment). bodies n.thread.batch ++ bodies q) (sym fragments)
                    ∙ ap (◌++◌ (bodies n.thread.batch))
                        (sym (append-nil (bodies n.thread.writer.fragments)))
                    ∙ ap
                        (λ o.
                          bodies n.thread.batch ++ (bodies n.thread.writer.fragments ++ body_of o))
                        (sym gone)),
        ))

  readied-IsAnswered :
      (d : LogDesc) (r : Bool × Thread)
      → IsCallable K c e d l
      → r ≡ make_ready K (min_buffer_space + item_size) packet_logs e.wait l.thread
      → IsReady (min_buffer_space + item_size) e.wait l.thread r
      → IsAnswered K c e d l (readied K c e l r)
  unfolding readied described
  readied-IsAnswered d (true, u) callable is
        (same, counts, limit, batch, fragments, inl (_, (b, held, sealed, used, room))) =
      let o = find_desc l.desc_map c.hash in
      let q = describe_call K c e l o in
      let m : Log = record q.1 { thread = u } in
      let (registry, cache) = describe_call-registry o in
      let begun : IsBegun e m b = record {
        batch = batch;
        fragments = fragments;
        held = held;
        used = used;
        room = omega arith;
        large = omega (arith, limit, callable.large);
        small = omega (arith, limit, callable.small);
        cached = (
          callable.cached.0,
          ap (λ (a : Attrs). a.descs) registry
              ∙ callable.cached.1
              ∙ ap (λ (a : List AttrDesc). a ++ callable.cached.0) (sym cache),
        );
        stale = callable.stale;
      } in
      subst (λ (p : Option LogDesc × Log). IsAnswered K c e d l (described K c e p))
        (sym (describe_call-thread u o))
        (subst (λ (p : Option LogDesc). IsAnswered K c e d l (described K c e (p, m)))
          (sym callable.site)
          (subst (λ (p : Option Fragment). IsAnswered K c e d l (write_record K c e d m p))
            (sym held)
            (written-IsAnswered d m _ (ap (λ (p : Bool × Thread). p.1) is) same counts
              (ap (λ (p : Bool × Thread). p.1.writer.thread_id) is
                ∙ make_ready-thread_id K (min_buffer_space + item_size) packet_logs e.wait l.thread)
              registry (write_record-IsWrittenAs K c e d m b begun callable.typed))))
  readied-IsAnswered d (false, u) callable is
        (same, counts, limit, batch, fragments, inr (_, refused, gone)) =
      inr (inr (refl, refused, ap (λ (q : Dropped). (q.logs + 1) % word) counts, same))
  readied-IsAnswered d (true, u) callable is
        (same, counts, limit, batch, fragments, inr (e', refused, gone)) =
      cc
  readied-IsAnswered d (false, u) callable is
        (same, counts, limit, batch, fragments, inl (e', room)) =
      cc

-- The outcome of send: the gate is closed and nothing happens, or the call is answered.
abbrev pub IsOutcome : Lst → Call → World → LogDesc → Log → Option (Bool × Log) → Type 0
IsOutcome K c e d l r =
    (((ltb c.level (threshold e c.module_of) ≡ true) ⊎ (e.present ≡ false)) × (r ≡ some (false, l)))
    ⊎ ((ltb c.level (threshold e c.module_of) ≡ false)
        × (e.present ≡ true)
        × IsAnswered K c e d l r)

-- A call of send, by a thread between two records, with a descriptor for its site whose types the
-- arguments have: a record below the threshold, or without a core, changes nothing. Otherwise
-- either what the thread has recorded grows by exactly one record - the header, the arguments and
-- the registered attributes in order, and padding to a multiple of eight - across however many
-- buffers, all of them sealed, unless the padding overran the last one by at most seven bytes; or
-- the record is rolled back and counted as dropped, and with it goes what the buffer held in which
-- it began; or no buffer came, nothing is lost and the drop is counted.
pub send-IsOutcome :
    (K : Lst) (c : Call) (e : World) (d : LogDesc) (l : Log)
    → IsCallable K c e d l
    → IsOutcome K c e d l (send K c e l)
unfolding send
send-IsOutcome K c e d l callable =
    if_cases (IsOutcome K c e d l) (ltb c.level (threshold e c.module_of)) _ _
      (λ quiet. inl (inl quiet, refl))
      (λ loud.
        if_cases (IsOutcome K c e d l) (not e.present) _ _
          (λ absent. inl (inr (not_true e.present absent), refl))
          (λ present. inr (
            loud,
            not_false e.present present,
            readied-IsAnswered K c e l d
                (make_ready K (min_buffer_space + item_size) packet_logs e.wait l.thread) callable
                refl
                (make_ready-IsReady K (min_buffer_space + item_size) packet_logs e.wait l.thread
                  (omega (arith, callable.large)) callable.steady),
          )))
  where
    not_true : (b : Bool) → not b ≡ true → b ≡ false
    not_true true h = cc
    not_true false h = refl

    not_false : (b : Bool) → not b ≡ false → b ≡ true
    not_false true h = refl
    not_false false h = cc
