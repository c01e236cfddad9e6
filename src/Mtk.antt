-- ===== src/Mtk.antt =====
-- engine/p8_mtk.cpp: the writer of metric samples. The functions of queries and groups are stubs that
-- ignore their arguments.
pub mod Samples
use p.Prelude.{
  ℕ, ◌+◌, ◌%◌, ◌^◌, Bool, true, false, not, Option, none, some, List, [], ◌∷◌, ◌++◌, leb,
  if◌then◌else◌,
}
use p.Kit.{Lst}
use p.Budget.{word}
use p.Core.Metrics.{MtkBase, Allocations, Mtks, mtk_error_not_initialized, register_mtk}
use p.Core.Descriptor.{Str, AttrDesc, ℤ, pos, negsuc}
use p.Core.Service.{Svc, little_endian, int32_bytes}
use p.Writer.{Fragment}
use p.Writer.Thread.{Thread, Wait, body_with, make_ready, park_done}

-- sizeof(s_p8_mtk_item_dat)
abbrev pub item_size : ℕ
item_size = 24

-- P8_PACKET_METRICS
abbrev pub packet_metrics : ℕ
packet_metrics = 3

-- s_p8_mtk_item_dat; `value` is the bits of the double.
abbrev pub item_bytes : ℕ → ℤ → ℕ → List ℕ
item_bytes timestamp id value =
    little_endian 8 timestamp
    ++ (little_endian 8 value ++ (int32_bytes id ++ (little_endian 2 item_size ++ 0 ∷ 0 ∷ [])))

-- ih_id < 0 || static_cast<uint32_t>(ih_id) >= get_mtk_count()
abbrev pub is_unknown : ℕ → ℤ → Bool
is_unknown count (pos n) = leb count n
is_unknown count (negsuc n) = true

abbrev pub drop_metric : Thread → Thread
drop_metric t = record t { dropped = record t.dropped { metrics = (t.dropped.metrics + 1) % word } }

module _ (K : Lst) where
  -- none is a null buffer that is written to.
  unfoldable pub write_sample : ℤ → ℕ → ℕ → Thread → Option Fragment → Option (Bool × Thread)
  unfolding park_done
  write_sample id value now t none = none
  write_sample id value now t (some b) =
      let used = t.writer.buf_used + item_size in
      let sampled : Fragment = record b {
        size = used % 2 ^ 16;
        stop_time = now;
        body = body_with t.writer.buf_used (item_bytes now id value) b;
      } in
      some (
        true,
        record t { writer = park_done K item_size sampled (record t.writer { buf_used = used }) },
      )

  abbrev pub sampled : ℤ → ℕ → ℕ → Bool × Thread → Option (Bool × Thread)
  sampled id value now (false, t) = some (false, drop_metric t)
  sampled id value now (true, t) = write_sample id value now t t.writer.buffer

  -- `present` is whether there is a core, and `now` the clock once the buffer is there.
  unfoldable pub emit : Bool → ℕ → ℤ → ℕ → Wait → ℕ → Thread → Option (Bool × Thread)
  unfolding write_sample
  emit present count id value wait now t =
      if not present
      then some (false, t)
      else if is_unknown count id
      then some (false, t)
      else sampled id value now (make_ready K item_size packet_metrics wait t)

  unfoldable pub create :
      (ℕ → ℕ → Bool)
      → Bool
      → Bool
      → List AttrDesc
      → Option MtkBase
      → Allocations
      → Option (List ℕ)
      → Mtks
      → Svc
      → Option (ℤ × Mtks × Svc)
  unfolding register_mtk
  create same present initialized attrs base m acquired t svc =
      if present
      then register_mtk K same initialized attrs base m acquired t svc
      else some (mtk_error_not_initialized, t, svc)

unfoldable pub create_query : Option MtkBase → ℕ → ℤ
create_query base query_interval_ms = negsuc 0

unfoldable pub create_group : Option MtkBase → Bool → ℤ
create_group base multi_thread = negsuc 0

unfoldable pub create_group_query : Option MtkBase → ℕ → ℤ
create_group_query base query_interval_ms = negsuc 0

unfoldable pub begin_group_emit : ℤ → Bool
begin_group_emit id = false

unfoldable pub emit_group : Option Str → ℕ → Bool
emit_group name value = false

unfoldable pub end_group_emit : ℤ → Bool
end_group_emit id = false
