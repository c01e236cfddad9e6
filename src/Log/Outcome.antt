-- ===== src/Log/Outcome.antt =====
-- What send makes of a record: the bytes of the record, and the state of the thread.
use p.Prelude.{
  ℕ, ◌+◌, ◌%◌, ◌^◌, ◌≤◌, ◌<◌, ◌≡◌, ◌⊎◌, Bool, true, Option, none, some, List, ◌++◌, length, take,
  All,
}
use p.Core.Descriptor.{LogDesc}
use p.Core.Attributes.{Attrs}
use p.Core.Service.{align_up_8}
use p.Writer.{Fragment, hdr_size, cursor}
use p.Writer.Thread.{Thread}
use p.Writer.Thread.Ready.{recorded, IsSealed, IsSteady}
use p.Log.Growth.{args_bytes}
use p.Log.Labels.{attrs_bytes, registered, IsCache}
use p.Log.Discard.{IsDiscarded}
use p.Log.Send.{Header, header_bytes, item_size, Call, World, Log, given_attrs, module_id}

-- The arguments and the attributes of a call as they are sent.
abbrev pub fields_of : Call → LogDesc → Attrs → List ℕ
fields_of c d registry =
    args_bytes (take d.args_count d.args) c.args ++ attrs_bytes registry.descs (given_attrs c.attrs)

-- The header of the record.
abbrev pub header_of : Call → World → LogDesc → Attrs → ℕ → Header
header_of c e d registry thread_id =
    let args = length (args_bytes (take d.args_count d.args) c.args) in
    let attrs = length (attrs_bytes registry.descs (given_attrs c.attrs)) in
    record {
      hash = d.hash;
      timestamp = e.now;
      trace_id = c.trace_id;
      thread_id = thread_id;
      level = c.level;
      args_size = args % 2 ^ 16;
      size = align_up_8 (item_size + args + attrs) % 2 ^ 16;
      mod_id = module_id c.module_of;
      attrs_count = registered registry.descs (given_attrs c.attrs) % 2 ^ 8;
    }

-- The record: its header with two bytes of padding, the fields, and up to seven bytes of padding,
-- after which its length is a multiple of eight. What the padding is, is left to the memory.
abbrev pub IsRecord : Call → World → LogDesc → Attrs → ℕ → List ℕ → Type 0
IsRecord c e d registry thread_id item =
    (gap : List ℕ) × (pad : List ℕ) × (item
      ≡ (header_bytes (header_of c e d registry thread_id) ++ gap)
        ++ (fields_of c d registry ++ pad))
    × (length gap ≡ 2)
    × (length pad < 8)
    × (length item % 8 ≡ 0)

abbrev pub fields : Call → LogDesc → Log → List ℕ
fields c d l = fields_of c d l.registry

abbrev pub record_header : Call → World → LogDesc → Log → Header
record_header c e d l = header_of c e d l.registry l.thread.writer.thread_id

-- The padding of the last record overran the end of the buffer in progress.
abbrev pub IsOverrun : Thread → Type 0
IsOverrun t =
    All IsSealed t.batch
    × All IsSealed t.writer.fragments
    × ((b : Fragment) × (t.writer.buffer ≡ some b)
        × IsSealed b
        × (t.writer.buf_max < cursor b)
        × (cursor b ≤ t.writer.buf_max + 7))

-- The outcome once the record has begun in the buffer b.
abbrev pub IsWrittenAs : Call → World → LogDesc → Log → Option (Bool × Log) → Type 0
IsWrittenAs c e d l none = ⊥
IsWrittenAs c e d l (some (ok, m)) =
    ((ok ≡ true)
      × ((item : List ℕ) × IsRecord c e d l.registry l.thread.writer.thread_id item
          × (recorded m.thread ≡ recorded l.thread ++ item))
      × (m.thread.dropped ≡ l.thread.dropped)
      × (IsSteady m.thread ⊎ IsOverrun m.thread))
    ⊎ IsDiscarded l.thread.writer.fragments l (ok, m)

-- What a record needs to start in the buffer b.
pub record IsBegun (e : World) (l : Log) (b : Fragment) : Type 0 where
  pub batch : All IsSealed l.thread.batch
  pub fragments : All IsSealed l.thread.writer.fragments
  pub held : l.thread.writer.buffer ≡ some b
  pub used : l.thread.writer.buf_used ≡ cursor b
  pub room : cursor b + item_size ≤ l.thread.writer.buf_max
  pub large : hdr_size + 256 ≤ l.thread.writer.buf_max
  pub small : l.thread.writer.buf_max + 8 < 2 ^ 16
  pub cached : IsCache l.registry l.cache
  pub stale : (at n : ℕ) → length (e.stale at n) ≡ n
