-- ===== src/Core/Service.antt =====
-- engine/p8_core.cpp, the service buffers: svc_acquire_new, svc_reserve and the four serialize
-- functions, with the layout of api/p8_protocol.h on a little-endian host. Every function runs
-- under mo_svc_mutex. `acquired` is what acquire_buffer(false) answers: the memory of a buffer of
-- the pool, or none; no call of svc_reserve takes more than one.
pub mod Entries
pub mod Memory
pub mod Contents
pub mod Places
pub mod Descriptors
pub mod History
use p.Prelude.{
  ℕ, zero, suc, ◌+◌, ◌-◌, ◌*◌, ◌/◌, ◌%◌, ◌^◌, Bool, true, false, Option, none, some, List, [], ◌∷◌,
  ◌++◌, ltb, ◌==◌, if◌then◌else◌, length, take, drop, replicate, min,
}
use p.Kit.{Lst}
use p.Budget.{word}
use p.Sink.{SvcBuf}
use p.Format.{Varg}
use p.Core.Descriptor.{Str, ℤ, pos, negsuc, type_code, AttrDesc, LogDesc, LogMod, MtkDesc}

-- The part of cp8_core: mo_svc_buffers and mu_dropped_svc.
pub record Svc : Type 0 where
  pub buffers : List SvcBuf
  pub dropped : ℕ

-- mz_data_buffer_size
abbrev pub buffer_size : ℕ
buffer_size = 8192

-- P8_ALIGN_UP_8
abbrev pub align_up_8 : ℕ → ℕ
align_up_8 n = (n + 7) / 8 * 8

-- The low bytes of a number, the lowest first.
abbrev pub little_endian : ℕ → ℕ → List ℕ
little_endian zero v = []
little_endian (suc n) v = (v % 256) ∷ little_endian n (v / 256)

-- The bytes of an int32_t.
abbrev pub int32_bytes : ℤ → List ℕ
int32_bytes (pos n) = little_endian 4 n
int32_bytes (negsuc n) = little_endian 4 (2 ^ 32 - 1 - n)

-- memcpy and memset: the memory after a copy of bytes to its start, and to an offset of it. A
-- memory keeps its length.
abbrev pub copy : List ℕ → List ℕ → List ℕ
copy [] memory = memory
copy (b ∷ bytes) [] = []
copy (b ∷ bytes) (m ∷ memory) = b ∷ copy bytes memory

abbrev pub overwrite : ℕ → List ℕ → List ℕ → List ℕ
overwrite zero bytes memory = copy bytes memory
overwrite (suc at) bytes [] = []
overwrite (suc at) bytes (m ∷ memory) = m ∷ overwrite at bytes memory

-- The string, cut by its length modulo P8_SVC_STR_MAX_LEN.
abbrev pub service_string : Option Str → Str
service_string none = []
service_string (some s) = take (length s % 1024) s

-- s_p8_svc_hdr
abbrev pub entry_header : ℕ → ℕ → List ℕ
entry_header type size = 4 ∷ type ∷ little_endian 2 (size % 2 ^ 16)

abbrev pub varg_bytes : List Varg → List ℕ
varg_bytes [] = []
varg_bytes (v ∷ vs) = v.type ∷ v.size ∷ varg_bytes vs

module _ (K : Lst) where
  open K use {size, push_last, back, set_back}

  unfoldable pub svc_acquire_new : Option (List ℕ) → Svc → Bool × Svc
  svc_acquire_new none s = (false, record s { dropped = (s.dropped + 1) % word })
  svc_acquire_new (some memory) s =
      (true, record s { buffers = push_last s.buffers (record { memory = memory; used = 0 }) })

  -- Take the next `padded` bytes of the current buffer, zeroed. The result is their offset in it.
  unfoldable pub svc_take : ℕ → Svc → Option SvcBuf → Option ℕ × Svc
  svc_take padded s none = (none, s)
  svc_take padded s (some b) = (
    some b.used,
    record s {
      buffers = set_back s.buffers (record {
        memory = overwrite b.used (replicate padded 0) b.memory;
        used = b.used + padded;
      });
    },
  )

  -- A fresh buffer where the current one is full.
  unfoldable pub svc_make_room : ℕ → Option (List ℕ) → Svc → Option SvcBuf → Bool × Svc
  unfolding svc_acquire_new
  svc_make_room padded acquired s none = (false, s)
  svc_make_room padded acquired s (some b) =
      if ltb buffer_size (b.used + padded) then svc_acquire_new acquired s else (true, s)

  unfoldable pub svc_reserve : ℕ → Option (List ℕ) → Svc → Option ℕ × Svc
  unfolding svc_acquire_new svc_make_room svc_take
  svc_reserve padded acquired s =
      if ltb buffer_size padded
      then (none, s)
      else (let (current, t) =
            if size s.buffers == 0 then svc_acquire_new acquired s else (true, s) in
          if current
          then (let (roomy, u) = svc_make_room padded acquired t (back t.buffers) in
              if roomy then svc_take padded u (back u.buffers) else (none, u))
          else (none, t))

  -- The stores of an entry's fields, which follow one another from its first byte; no store
  -- where there is no place.
  abbrev pub store_at : ℕ → List ℕ → Svc → Option SvcBuf → Svc
  store_at at bytes s none = s
  store_at at bytes s (some b) = record s {
    buffers = set_back s.buffers (record b { memory = overwrite at bytes b.memory });
  }

  unfoldable pub store : Option ℕ → List ℕ → Svc → Svc
  store none bytes s = s
  store (some at) bytes s = store_at at bytes s (back s.buffers)

  unfoldable pub serialize_attr_desc : Option AttrDesc → Option (List ℕ) → Svc → Svc
  unfolding svc_reserve store
  serialize_attr_desc none acquired s = s
  serialize_attr_desc (some d) acquired s =
      let name = service_string d.name in
      let padded = align_up_8 (12 + length name + 1) in
      let (dst, t) = svc_reserve padded acquired s in
      store dst
        (entry_header 2 padded
          ++ (int32_bytes d.id ++ (type_code d.type ∷ 0 ∷ 0 ∷ 0 ∷ (name ++ 0 ∷ []))))
        t

  unfoldable pub serialize_log_desc : Option LogDesc → Option (List ℕ) → Svc → Svc
  unfolding svc_reserve store
  serialize_log_desc none acquired s = s
  serialize_log_desc (some d) acquired s =
      let file = service_string d.file in
      let func = service_string d.function in
      let fmt = service_string d.format in
      let args = if ltb 32 d.args_count then 32 else d.args_count in
      let padded = align_up_8 (24 + length file + length func + length fmt + args * 2) in
      let (dst, t) = svc_reserve padded acquired s in
      store dst
        (entry_header 1 padded
          ++ (little_endian 4 d.line
              ++ (little_endian 8 d.hash
                  ++ (little_endian 2 (length fmt)
                      ++ (little_endian 2 (length file)
                          ++ (little_endian 2 (length func)
                              ++ ((args % 256)
                                  ∷ 0
                                  ∷ (file
                                      ++ (func ++ (fmt ++ varg_bytes (take args d.args)))))))))))
        t

  unfoldable pub serialize_log_mod : Option LogMod → Option (List ℕ) → Svc → Svc
  unfolding svc_reserve store
  serialize_log_mod none acquired s = s
  serialize_log_mod (some m) acquired s =
      let name = service_string m.name in
      let padded = align_up_8 (8 + length name + 1) in
      let (dst, t) = svc_reserve padded acquired s in
      store dst
        (entry_header 6 padded
          ++ (little_endian 2 m.id ++ ((m.verbosity % 256) ∷ 0 ∷ (name ++ 0 ∷ []))))
        t

  unfoldable pub serialize_mtk_desc : Option MtkDesc → List ℕ → ℕ → Option (List ℕ) → Svc → Svc
  unfolding svc_reserve store
  serialize_mtk_desc none blob attr_count acquired s = s
  serialize_mtk_desc (some d) blob attr_count acquired s =
      let name = service_string d.name in
      let description = service_string d.description in
      let unit = service_string d.unit in
      let padded = align_up_8 (32 + length name + length description + length unit + length blob) in
      let (dst, t) = svc_reserve padded acquired s in
      store dst
        (entry_header 5 padded
          ++ (int32_bytes d.id
              ++ (little_endian 8 d.min
                  ++ (little_endian 8 d.max
                      ++ (d.flags
                          ∷ attr_count
                          ∷ (little_endian 2 (length name)
                              ++ (little_endian 2 (length description)
                                  ++ (little_endian 2 (length unit)
                                      ++ (name ++ (description ++ (unit ++ blob)))))))))))
        t
