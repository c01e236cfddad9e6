-- ===== src/Log.antt =====
-- engine/p8_log.cpp, cp8_log::send on a 64-bit platform: the record of a log call, written field by
-- field into the writer's buffers. This file has its fields, Log/Send the call as a whole.
pub mod Send
pub mod Growth
pub mod Fields
pub mod Labels
pub mod Front
pub mod Discard
pub mod Outcome
pub mod Records
pub mod Calls
use p.Prelude.{
  ℕ, zero, suc, ◌+◌, ◌-◌, ◌%◌, ◌^◌, Bool, true, false, not, ◌&&◌, ◌||◌, Option, none, some, List,
  [], ◌∷◌, ◌++◌, ltb, ◌==◌, if◌then◌else◌, length, take, drop, is_some,
}
use p.Kit.{Lst}
use p.Format.{Varg, arg_double, arg_ldouble}
use p.Core.Descriptor.{Str, ℤ, pos, negsuc, attr_str, is_same_type, AttrDesc}
use p.Core.Attributes.{Attrs, at_id, sync_attr_cache}
use p.Core.Metrics.{AttrVal, string_of}
use p.Core.LogDescs.{is_string}
use p.Core.Service.{little_endian, int32_bytes}
use p.Writer.{
  Fragment, Writer, hdr_size, cursor, Room, null, exhausted, roomy, ensure_space, copy_fragmented,
}

-- What one va_arg of send yields: the bytes of a string of any width, absent where the pointer is
-- null, a value of 64 bits, the bits of a double, or the bytes of a long double.
pub data Arg : Type 0 where
  string : Option Str → Arg
  integer : ℕ → Arg
  double : ℕ → Arg
  long_double : List ℕ → Arg

-- The locals of send while it writes a record, with the writer. `answers` are those of the calls of
-- acquire_buffer(false) to come.
pub record Item : Type 0 where
  pub writer : Writer
  pub answers : List Bool
  pub args_size : ℕ
  pub attrs_size : ℕ
  pub attrs_count : ℕ
  pub cache : List AttrDesc

-- A step of send: the next statement, lbl_discard, or a read of what is not there.
pub data Step : Type 0 where
  unreadable : Step
  discarded : Item → Step
  stepped : Item → Step

infixl 5 ◌>>=◌
abbrev pub ◌>>=◌ : Step → (Item → Step) → Step
unreadable >>= f = unreadable
discarded s >>= f = discarded s
stepped s >>= f = f s

-- The part of a record whose bytes are counted: lz_args_written or lz_attrs_written.
pub data Part : Type 0 where
  in_args in_attrs : Part

abbrev pub written : Part → Item → ℕ
written in_args s = s.args_size
written in_attrs s = s.attrs_size

abbrev pub add_written : Part → ℕ → Item → Item
add_written in_args n s = record s { args_size = s.args_size + n }
add_written in_attrs n s = record s { attrs_size = s.attrs_size + n }

abbrev pub set_written : Part → ℕ → Item → Item
set_written in_args n s = record s { args_size = n }
set_written in_attrs n s = record s { attrs_size = n }

-- A string, cut at UINT16_MAX.
abbrev pub cut : Option Str → Str
cut o = let s = string_of o in take (if ltb 65535 (length s) then 65535 else length s) s

-- Whether the loop takes a value from the va_list for the entry.
abbrev pub consumes : Varg → Bool
consumes v = is_string v || (v.size == 8) || (v.type == arg_ldouble)

abbrev pub args_after : Varg → List Arg → List Arg
args_after v args = if consumes v then drop 1 args else args

abbrev pub first_arg : List Arg → Option Arg
first_arg [] = none
first_arg (a ∷ args) = some a

-- The bytes that a value leaves behind the cursor, which moves by the entry's size. A value of
-- another type than the one that is read has none. `stale` is what the memory holds.
abbrev pub fixed_bytes : (ℕ → ℕ → List ℕ) → Varg → Option Arg → Fragment → Option (List ℕ)
fixed_bytes stale v none b = if consumes v then none else some (stale (cursor b) v.size)
fixed_bytes stale v (some (string o)) b =
    if consumes v then none else some (stale (cursor b) v.size)
fixed_bytes stale v (some (integer n)) b =
    if (v.size == 8) && not (v.type == arg_double)
    then some (little_endian 8 n)
    else if consumes v
    then none
    else some (stale (cursor b) v.size)
fixed_bytes stale v (some (double n)) b =
    if (v.size == 8) && (v.type == arg_double)
    then some (little_endian 8 n)
    else if consumes v
    then none
    else some (stale (cursor b) v.size)
fixed_bytes stale v (some (long_double bytes)) b =
    if not (v.size == 8) && (v.type == arg_ldouble) && (length bytes == v.size)
    then some bytes
    else if consumes v
    then none
    else some (stale (cursor b) v.size)

abbrev pub stored_at : Item → Writer → Fragment → List Bool → Option (List ℕ) → Step
stored_at s v b rest none = unreadable
stored_at s v b rest (some bytes) = stepped (record s {
  writer = record v { buffer = some (record b { body = b.body ++ bytes }) };
  answers = rest;
})

-- The bytes go behind the cursor of the buffer that has room for them.
abbrev pub placed : (Fragment → Option (List ℕ)) → Item → Room → Step
placed bytes s null = unreadable
placed bytes s (exhausted v) = discarded (record s { writer = v; answers = drop 1 s.answers })
placed bytes s (roomy v b rest) = stored_at s v b rest (bytes b)

abbrev pub copied : Part → Item → Option (Bool × Writer × ℕ × List Bool) → Step
copied part s none = unreadable
copied part s (some (false, v, n, rest)) =
    discarded (set_written part n (record s { writer = v; answers = rest }))
copied part s (some (true, v, n, rest)) =
    stepped (set_written part n (record s { writer = v; answers = rest }))

-- `now` is mu_timestamp of the record.
module _ (K : Lst) (now : ℕ) where
  -- P8_ENSURE_SPACE and a memcpy.
  unfoldable pub put : ℕ → (Fragment → Option (List ℕ)) → Item → Step
  put needed bytes s = placed bytes s (ensure_space K now needed s.answers s.writer s.writer.buffer)

  abbrev pub copy_string : Part → Option Str → Item → Step
  copy_string part o s =
      copied part s (copy_fragmented K now s.answers (cut o) s.writer (written part s))

  -- A string with its length before it.
  unfoldable pub write_string : Part → Option Str → Item → Step
  unfolding put
  write_string part o s = put 2 (λ b. some (little_endian 2 (length (cut o)))) s >>= λ s1.
      copy_string part o (add_written part 2 s1)

  unfoldable pub write_text_arg : Option Arg → Item → Step
  unfolding write_string
  write_text_arg none s = unreadable
  write_text_arg (some (string o)) s = write_string in_args o s
  write_text_arg (some _) s = unreadable

  unfoldable pub write_arg : (ℕ → ℕ → List ℕ) → Varg → Option Arg → Item → Step
  unfolding write_text_arg
  write_arg stale v a s =
      if is_string v
      then write_text_arg a s
      else (put v.size (fixed_bytes stale v a) s >>= λ s1. stepped (add_written in_args v.size s1))

  unfoldable pub write_args : (ℕ → ℕ → List ℕ) → List Varg → List Arg → Item → Step
  unfolding write_arg
  write_args stale [] args s = stepped s
  write_args stale (v ∷ vs) args s =
      write_arg stale v (first_arg args) s >>= λ s1. write_args stale vs (args_after v args) s1

  abbrev pub counted : Item → Step
  counted s = stepped (record s { attrs_count = (s.attrs_count + 1) % 2 ^ 8 })

  unfoldable pub write_attr_value : AttrDesc → AttrVal → Item → Step
  unfolding write_string
  write_attr_value d v s =
      if is_same_type d.type attr_str
      then (put 4 (λ b. some (int32_bytes v.id)) s >>= λ s1.
          write_string in_attrs v.str (add_written in_attrs 4 s1) >>= counted)
      else (put 12 (λ b. some (int32_bytes v.id ++ little_endian 8 v.bits)) s >>= λ s1.
          counted (add_written in_attrs 12 s1))

  abbrev pub write_known : Option AttrDesc → AttrVal → Item → Step
  unfolding write_attr_value
  write_known none v s = stepped s
  write_known (some d) v s = write_attr_value d v s

  abbrev pub write_cached : Attrs → ℕ → AttrVal → Item → Option AttrDesc → Step
  unfolding write_known
  write_cached registry n v s (some d) = write_known (some d) v s
  write_cached registry n v s none =
      let cache = sync_attr_cache registry s.cache in
      write_known (at_id cache (pos n)) v (record s { cache = cache })

  -- An id that the cache does not hold is looked up once more after the cache was brought up to date.
  unfoldable pub write_attr : Attrs → AttrVal → ℤ → Item → Step
  unfolding write_cached
  write_attr registry v (negsuc n) s = stepped s
  write_attr registry v (pos n) s = write_cached registry n v s (at_id s.cache (pos n))

  unfoldable pub write_attrs : Attrs → List AttrVal → Item → Step
  unfolding write_attr
  write_attrs registry [] s = stepped s
  write_attrs registry (v ∷ vs) s =
      write_attr registry v v.id s >>= λ s1. write_attrs registry vs s1
