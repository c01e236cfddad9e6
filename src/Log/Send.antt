-- ===== src/Log/Send.antt =====
-- engine/p8_log.cpp, cp8_log::send: the gate, the buffer, the descriptor, the header of the record and
-- its end, or the way back at lbl_discard.
use p.Prelude.{
  ℕ, zero, suc, ◌+◌, ◌-◌, ◌%◌, ◌^◌, Bool, true, false, not, Option, none, some, List, [], ◌∷◌, ◌++◌,
  ltb, if◌then◌else◌, length, take, drop,
}
use p.Kit.{Lst}
use p.Budget.{word}
use p.Format.{Platform}
use p.Core.Descriptor.{LogDesc, LogMod, AttrDesc}
use p.Core.Attributes.{Attrs}
use p.Core.Metrics.{AttrVal}
use p.Core.LogDescs.{Site, find_desc, resolve_log_desc}
use p.Core.Service.{Svc, align_up_8, little_endian}
use p.Writer.{Fragment, Writer, hdr_size, cursor}
use p.Writer.Thread.{Thread, Wait, body_with, make_ready, park_done}
use p.Log.{Arg, Item, Step, unreadable, discarded, stepped, ◌>>=◌, write_args, write_attrs}

-- s_p8_log_item_dat without its two bytes of padding.
pub record Header : Type 0 where
  pub hash : ℕ
  pub timestamp : ℕ
  pub trace_id : ℕ
  pub thread_id : ℕ
  pub level : ℕ
  pub args_size : ℕ
  pub size : ℕ
  pub mod_id : ℕ
  pub attrs_count : ℕ

-- mu_processor and mu_flags are 0.
unfoldable pub header_bytes : Header → List ℕ
header_bytes h =
    little_endian 8 h.hash
    ++ (little_endian 8 h.timestamp
        ++ (little_endian 8 h.trace_id
            ++ (little_endian 4 h.thread_id
                ++ ((h.level % 256)
                    ∷ 0
                    ∷ (little_endian 2 h.args_size
                        ++ (little_endian 2 h.size
                            ++ (little_endian 2 h.mod_id ++ (h.attrs_count % 256) ∷ 0 ∷ [])))))))

-- sizeof(s_p8_log_item_dat)
abbrev pub item_size : ℕ
item_size = 40

-- The bytes of a header that are fields.
abbrev pub fields_size : ℕ
fields_size = 38

-- P8_LOG_MIN_BUFFER_SPACE
abbrev pub min_buffer_space : ℕ
min_buffer_space = 32

-- P8_PACKET_LOGS
abbrev pub packet_logs : ℕ
packet_logs = 1

-- The arguments of send. `hash` is P8_GET_LOG_HASH of the file and the line.
pub record Call : Type 0 where
  pub level : ℕ
  pub module_of : Option LogMod
  pub trace_id : ℕ
  pub site : Site
  pub hash : ℕ
  pub attrs : Option (List AttrVal)
  pub args : List Arg

-- What the surroundings answer during a call: whether there is a core and its default verbosity, the
-- wait for a buffer, the clock, the buffers that rotations ask for, the answers to new and to
-- acquire_buffer for a new descriptor, and what the buffers' memory held before.
pub record World : Type 0 where
  pub present : Bool
  pub verbosity : ℕ
  pub wait : Wait
  pub now : ℕ
  pub answers : List Bool
  pub platform : Platform
  pub made : Bool
  pub acquired : Option (List ℕ)
  pub stale : ℕ → ℕ → List ℕ

-- cp8_log with what it reaches of the core. `released` are the buffers given back to the pool.
pub record Log : Type 0 where
  pub thread : Thread
  pub desc_map : List (ℕ × LogDesc)
  pub cache : List AttrDesc
  pub registry : Attrs
  pub descs : List (ℕ × LogDesc)
  pub svc : Svc
  pub released : List Fragment

abbrev pub threshold : World → Option LogMod → ℕ
threshold e none = if e.present then e.verbosity else 0
threshold e (some m) = m.verbosity

abbrev pub module_id : Option LogMod → ℕ
module_id none = 0xffff
module_id (some m) = m.id

-- A store through lp_hdr, to the header at an offset of a buffer's body.
abbrev pub patch : ℕ → Header → Fragment → Fragment
patch at h b = record b {
  body = take at b.body ++ (header_bytes h ++ drop (at + fields_size) b.body);
}

abbrev pub patch_nth : ℕ → (Fragment → Fragment) → List Fragment → List Fragment
patch_nth n f [] = []
patch_nth zero f (b ∷ bs) = f b ∷ bs
patch_nth (suc n) f (b ∷ bs) = b ∷ patch_nth n f bs

abbrev pub patch_buffer : (Fragment → Fragment) → Option Fragment → Option Fragment
patch_buffer f none = none
patch_buffer f (some b) = some (f b)

-- The buffer with the header is the one in progress, until a rotation puts it behind the first
-- `commit` fragments.
abbrev pub patch_header : ℕ → (Fragment → Fragment) → Writer → Writer
patch_header commit f w =
    if ltb commit (length w.fragments)
    then record w { fragments = patch_nth commit f w.fragments }
    else record w { buffer = patch_buffer f w.buffer }

-- The answer of resolve_log_desc, entered in the thread's own map if there is one.
abbrev pub remembered : ℕ → Option LogDesc → Log → Option LogDesc × Log
remembered hash none l = (none, l)
remembered hash (some d) l = (some d, record l { desc_map = (hash, d) ∷ l.desc_map })

abbrev pub given_attrs : Option (List AttrVal) → List AttrVal
given_attrs none = []
given_attrs (some vs) = vs

abbrev pub sent : Item → Log → Option Writer → Option (Bool × Log)
sent s l none = none
sent s l (some w) =
    some (true, record l { thread = record l.thread { writer = w }; cache = s.cache })

-- The header as it stands in a complete record.
abbrev pub final_header : Header → Item → Header
final_header h s = record h {
  args_size = s.args_size % 2 ^ 16;
  attrs_count = s.attrs_count;
  size = align_up_8 (item_size + s.args_size + s.attrs_size) % 2 ^ 16;
}

-- The sizes are stored by the end of the record on every path.
abbrev pub first_header : Call → World → LogDesc → Writer → Header
first_header c e d w = record {
  hash = d.hash;
  timestamp = e.now;
  trace_id = c.trace_id;
  thread_id = w.thread_id;
  level = c.level;
  args_size = 0;
  size = 0;
  mod_id = module_id c.module_of;
  attrs_count = 0;
}

-- The locals at the start of the record in the buffer b.
abbrev pub started : Call → World → LogDesc → Log → Fragment → Item
started c e d l b =
    let w = l.thread.writer in
    let stored = header_bytes (first_header c e d w) ++ e.stale (w.buf_used + fields_size) 2 in
    record {
      writer = record w { buffer = some (record b { body = body_with w.buf_used stored b }) };
      answers = e.answers;
      args_size = 0;
      attrs_size = 0;
      attrs_count = 0;
      cache = l.cache;
    }

abbrev pub drop_log : Thread → Thread
drop_log t = record t { dropped = record t.dropped { logs = (t.dropped.logs + 1) % word } }

module _ (K : Lst) where
  -- The descriptor of the call site, from the thread's own map if it is there.
  unfoldable pub describe_call : Call → World → Log → Option LogDesc → Option LogDesc × Log
  describe_call c e l (some d) = (some d, l)
  describe_call c e l none =
      let (d, descs, svc) =
        resolve_log_desc K e.platform c.hash c.site e.made e.acquired l.descs l.svc in
      remembered c.hash d (record l { descs = descs; svc = svc })

  -- From the end of the fields: alignment, the two headers, and the buffer parked if it is full.
  unfoldable pub finish : World → Item → Writer → Option Fragment → Option Writer
  unfolding park_done
  finish e s w none = none
  finish e s w (some b) =
      let size = item_size + s.args_size + s.attrs_size in
      let pad = align_up_8 size - size in
      let used = cursor b + pad in
      some (
        park_done K min_buffer_space
          (record b {
            size = used % 2 ^ 16;
            stop_time = e.now;
            body = b.body ++ e.stale (cursor b) pad;
          })
          (record w { buf_used = used }))

  -- The fragments beyond the first `commit`, the last first.
  unfoldable pub roll_back : ℕ → ℕ → List Fragment → List Fragment → List Fragment × List Fragment
  roll_back zero commit fragments released = (fragments, released)
  roll_back (suc fuel) commit fragments released =
      if ltb commit (K.size fragments)
      then elim (K.pull_last fragments) [
        | none ↦ (fragments, released)
        | some (b, rest) ↦ roll_back fuel commit rest (released ++ b ∷ [])
      ]
      else (fragments, released)

  -- lbl_discard
  unfoldable pub discard : ℕ → ℕ → Header → Item → Log → Bool × Log
  unfolding roll_back
  discard commit at h s l =
      let w =
        patch_header commit
          (patch at (record h {
            args_size = s.args_size % 2 ^ 16;
            attrs_count = s.attrs_count;
            size = (item_size + s.args_size + s.attrs_size) % 2 ^ 16;
          }))
          s.writer in
      let (left, released) = roll_back (K.size w.fragments) commit w.fragments l.released in
      (
        false,
        record l {
          thread = record l.thread {
            writer = record w { fragments = left; buffer = none; buf_used = 0 };
            dropped = record l.thread.dropped { logs = (l.thread.dropped.logs + 1) % word };
          };
          cache = s.cache;
          released = released;
        },
      )

  unfoldable pub ended : World → ℕ → ℕ → Header → Log → Step → Option (Bool × Log)
  unfolding finish discard
  ended e commit at h l unreadable = none
  ended e commit at h l (discarded s) = some (discard commit at h s l)
  ended e commit at h l (stepped s) =
      let w = patch_header commit (patch at (final_header h s)) s.writer in
      sent s l (finish e s w w.buffer)

  -- none as the result is a null pointer, or an argument of another type than the format has.
  unfoldable pub write_record : Call → World → LogDesc → Log → Option Fragment → Option (Bool × Log)
  unfolding ended write_args write_attrs
  write_record c e d l none = none
  write_record c e d l (some b) =
      let w = l.thread.writer in
      ended e (K.size w.fragments) (w.buf_used - hdr_size) (first_header c e d w) l (
        write_args K e.now e.stale (take d.args_count d.args) c.args (started c e d l b)
        >>= write_attrs K e.now l.registry (given_attrs c.attrs))

  unfoldable pub described : Call → World → Option LogDesc × Log → Option (Bool × Log)
  unfolding write_record
  described c e (none, l) = some (false, l)
  described c e (some d, l) = write_record c e d l l.thread.writer.buffer

  unfoldable pub readied : Call → World → Log → Bool × Thread → Option (Bool × Log)
  unfolding described describe_call
  readied c e l (false, t) = some (false, record l { thread = drop_log t })
  readied c e l (true, t) =
      let m = record l { thread = t } in
      described c e (describe_call c e m (find_desc m.desc_map c.hash))

  unfoldable pub send : Call → World → Log → Option (Bool × Log)
  unfolding readied
  send c e l =
      if ltb c.level (threshold e c.module_of)
      then some (false, l)
      else if not e.present
      then some (false, l)
      else readied c e l (make_ready K (min_buffer_space + item_size) packet_logs e.wait l.thread)
