-- ===== src/Writer.antt =====
-- engine/p8_tls_writer.hpp and p8_tls_writer.cpp: the writer that a thread owns, with the buffers of
-- the record in progress. Every function runs under the writer's spin lock.
pub mod Trace
pub mod Fragments
pub mod Pull
pub mod Thread
use p.Prelude.{
  ℕ, zero, suc, ◌+◌, ◌-◌, ◌%◌, ◌^◌, Bool, true, false, Option, none, some, List, [], ◌∷◌, ◌++◌, ltb,
  ◌==◌, if◌then◌else◌, length, take, drop, min,
}
use p.Kit.{Lst}

-- A data buffer: its s_p8_data_buf_hdr, and the bytes behind it up to the write cursor.
pub record Fragment : Type 0 where
  pub packet_type : ℕ
  pub flags : ℕ
  pub size : ℕ
  pub thread_id : ℕ
  pub start_time : ℕ
  pub stop_time : ℕ
  pub body : List ℕ

pub record Writer : Type 0 where
  pub thread_id : ℕ
  pub buf_max : ℕ
  pub fragments : List Fragment
  pub buffer : Option Fragment
  pub buf_used : ℕ

-- sizeof(s_p8_data_buf_hdr)
abbrev pub hdr_size : ℕ
hdr_size = 24

-- The offset of the write cursor in its buffer.
abbrev pub cursor : Fragment → ℕ
cursor b = hdr_size + length b.body

-- mu_flags |= P8_DATA_FLAG_FRAGMENT
abbrev pub with_fragment_flag : ℕ → ℕ
with_fragment_flag flags = if flags % 2 == 1 then flags else flags + 1

-- The buffer that follows b.
abbrev pub next_buffer : ℕ → Fragment → Writer → Fragment
next_buffer now b w = record {
  packet_type = b.packet_type;
  flags = 0;
  size = hdr_size;
  thread_id = w.thread_id;
  start_time = now;
  stop_time = 0;
  body = [];
}

-- What a round of the copy loop meets: a null buffer, no further buffer, or a buffer to write to.
pub data Room : Type 0 where
  null : Room
  exhausted : Writer → Room
  roomy : Writer → Fragment → List Bool → Room

abbrev pub rotated : List Bool → Option (Bool × Writer) → Room
rotated answers none = null
rotated answers (some (false, w)) = exhausted w
rotated answers (some (true, w)) = elim w.buffer [ none ↦ null | some b ↦ roomy w b answers ]

abbrev pub next_answer : List Bool → Bool
next_answer [] = false
next_answer (a ∷ answers) = a

module _ (K : Lst) where
  -- `answer` is whether acquire_buffer(false) answers.
  unfoldable pub rotate : ℕ → Bool → Fragment → Writer → Bool × Writer
  rotate now answer b w =
      let finished : Fragment = record b {
        flags = with_fragment_flag b.flags;
        size = w.buf_used % 2 ^ 16;
        stop_time = now;
      } in
      let fragments = K.push_last w.fragments finished in
      if answer
      then (
        true,
        record w {
          fragments = fragments;
          buffer = some (next_buffer now b w);
          buf_used = hdr_size;
        },
      )
      else (false, record w { fragments = fragments; buffer = none })

  -- none is a null buffer that is written to.
  unfoldable pub rotate_fragment_buffer : ℕ → Bool → Writer → Option (Bool × Writer)
  unfolding rotate
  rotate_fragment_buffer now answer w = elim w.buffer [
    | none ↦ none
    | some b ↦ some (rotate now answer b w)
  ]

  -- The start of a round, with a rotation where the buffer is full.
  unfoldable pub make_room : ℕ → List Bool → Writer → Option Fragment → Room
  unfolding rotate_fragment_buffer
  make_room now answers w none = null
  make_room now answers w (some b) =
      if w.buf_max - cursor b == 0
      then rotated (drop 1 answers)
          (rotate_fragment_buffer now (next_answer answers) (record w { buf_used = cursor b }))
      else roomy w b answers

  -- P8_ENSURE_SPACE, which does not test the new buffer.
  unfoldable pub ensure_space : ℕ → ℕ → List Bool → Writer → Option Fragment → Room
  unfolding rotate_fragment_buffer
  ensure_space now needed answers w none = null
  ensure_space now needed answers w (some b) =
      if ltb w.buf_max (cursor b + needed)
      then rotated (drop 1 answers)
          (rotate_fragment_buffer now (next_answer answers) (record w { buf_used = cursor b }))
      else roomy w b answers

  -- The loop of copy_fragmented. Its result: whether it copied everything, the writer, the count of
  -- the bytes written, and the answers left. none is a null buffer, or fuel that ran out.
  unfoldable pub copy_loop :
      ℕ → ℕ → List Bool → List ℕ → Writer → ℕ → Option (Bool × Writer × ℕ × List Bool)
  unfolding make_room
  copy_loop fuel now answers [] w written = some (true, w, written, answers)
  copy_loop zero now answers (c ∷ src) w written = none
  copy_loop (suc fuel) now answers (c ∷ src) w written = elim (make_room now answers w w.buffer) [
    | null ↦ none
    | exhausted v ↦ some (false, v, written, drop 1 answers)
    | roomy v b rest ↦
        let n = min (length (c ∷ src)) (v.buf_max - cursor b) in
        copy_loop fuel now rest (drop n (c ∷ src))
          (record v { buffer = some (record b { body = b.body ++ take n (c ∷ src) }) })
          (written + n)
  ]

  -- `answers` are those of the calls of acquire_buffer(false), in order; a missing one is null.
  unfoldable pub copy_fragmented :
      ℕ → List Bool → List ℕ → Writer → ℕ → Option (Bool × Writer × ℕ × List Bool)
  unfolding copy_loop
  copy_fragmented now answers src w written = copy_loop (length src) now answers src w written

  -- Moves the elements of a list behind those of another; the fuel is their number.
  unfoldable pub move_all : {A : Type 0} → ℕ → List A → List A → List A × List A
  move_all zero from to = (from, to)
  move_all (suc fuel) from to = if K.size from == 0 then (from, to) else elim (K.pull_first from) [
    | none ↦ (from, to)
    | some (b, rest) ↦ move_all fuel rest (K.push_last to b)
  ]

  -- The end of pull, once the fragments have moved.
  unfoldable pub hand_over :
      Writer → List Fragment × List Fragment → Option Fragment → List Fragment × Writer
  hand_over w (left, moved) none = (moved, record w { fragments = left })
  hand_over w (left, moved) (some b) =
      (K.push_last moved b, record w { fragments = left; buffer = none; buf_used = 0 })

  unfoldable pub pull : List Fragment → Writer → List Fragment × Writer
  unfolding move_all hand_over
  pull io_data w = hand_over w (move_all (K.size w.fragments) w.fragments io_data) w.buffer
