-- ===== src/Core/Service/Descriptors.antt =====
-- The entries that the four serialize functions write, as api/p8_protocol.h lays them out.
use p.Prelude.{
  ℕ, zero, suc, ◌+◌, ◌*◌, ◌%◌, ◌≤◌, ◌<◌, ◌≡◌, refl, sym, ◌⊎◌, inl, inr, Option, none, some, List,
  [], ◌∷◌, ◌++◌, ltb, if◌then◌else◌, length, take, arith, Bool-cases, length-append, length-take,
  leb, leb→le,
}
use mathlib.Core.Path.{subst}
use p.Kit.{Lst}
use p.Format.{Varg}
use p.Core.Descriptor.{ℤ, pos, negsuc, type_code, AttrDesc, LogDesc, LogMod, MtkDesc, Str}
use p.Core.Service.{
  Svc, buffer_size, align_up_8, little_endian, int32_bytes, service_string, entry_header,
  varg_bytes, serialize_attr_desc, serialize_log_desc, serialize_log_mod, serialize_mtk_desc,
}
use p.Core.Service.Entries.{padded_to, padded_to-IsEntry, align_up_8_lem}
use p.Core.Service.Contents.{Holds}
use p.Core.Service.Places.{put, Took, IsAcquired, put-Took, put_too_large}

-- An entry of a type: the header, the body and the padding to a multiple of eight.
abbrev pub entry_of : ℕ → ℕ → List ℕ → List ℕ
entry_of type size body = padded_to (align_up_8 size) (entry_header type (align_up_8 size) ++ body)

abbrev pub attr_size : AttrDesc → ℕ
attr_size d = 12 + length (service_string d.name) + 1

abbrev pub attr_body : AttrDesc → List ℕ
attr_body d = int32_bytes d.id ++ (type_code d.type ∷ 0 ∷ 0 ∷ 0 ∷ (service_string d.name ++ 0 ∷ []))

abbrev pub mod_size : LogMod → ℕ
mod_size m = 8 + length (service_string m.name) + 1

abbrev pub mod_body : LogMod → List ℕ
mod_body m = little_endian 2 m.id ++ ((m.verbosity % 256) ∷ 0 ∷ (service_string m.name ++ 0 ∷ []))

-- The number of arguments sent, at most P8_LOG_MAX_ARGS.
abbrev pub args_sent : LogDesc → ℕ
args_sent d = if ltb 32 d.args_count then 32 else d.args_count

abbrev pub log_size : LogDesc → ℕ
log_size d =
    24
    + length (service_string d.file)
    + length (service_string d.function)
    + length (service_string d.format)
    + args_sent d * 2

abbrev pub log_body : LogDesc → List ℕ
log_body d =
    little_endian 4 d.line
    ++ (little_endian 8 d.hash
        ++ (little_endian 2 (length (service_string d.format))
            ++ (little_endian 2 (length (service_string d.file))
                ++ (little_endian 2 (length (service_string d.function))
                    ++ ((args_sent d % 256)
                        ∷ 0
                        ∷ (service_string d.file
                            ++ (service_string d.function
                                ++ (service_string d.format
                                    ++ varg_bytes (take (args_sent d) d.args)))))))))

abbrev pub mtk_size : MtkDesc → List ℕ → ℕ
mtk_size d blob =
    32
    + length (service_string d.name)
    + length (service_string d.description)
    + length (service_string d.unit)
    + length blob

abbrev pub mtk_body : MtkDesc → List ℕ → ℕ → List ℕ
mtk_body d blob attr_count =
    int32_bytes d.id
    ++ (little_endian 8 d.min
        ++ (little_endian 8 d.max
            ++ (d.flags
                ∷ attr_count
                ∷ (little_endian 2 (length (service_string d.name))
                    ++ (little_endian 2 (length (service_string d.description))
                        ++ (little_endian 2 (length (service_string d.unit))
                            ++ (service_string d.name
                                ++ (service_string d.description
                                    ++ (service_string d.unit ++ blob)))))))))

length-service_string : (s : Option Str) → length (service_string s) < 1024
length-service_string none = omega arith
length-service_string (some s) = omega (arith, length-take (length s % 1024) s)

length-int32_bytes : (n : ℤ) → length (int32_bytes n) ≡ 4
length-int32_bytes (pos n) = refl
length-int32_bytes (negsuc n) = refl

length-varg_bytes : (n : ℕ) (vs : List Varg) → length (varg_bytes (take n vs)) ≤ n * 2
length-varg_bytes zero vs = omega arith
length-varg_bytes (suc n) [] = omega arith
length-varg_bytes (suc n) (v ∷ vs) = omega (arith, length-varg_bytes n vs)

-- A body that fits its size, in an entry of at most a buffer.
module _ (K : Lst) where
  put_entry :
      (type size : ℕ) (body : List ℕ) (acquired : Option (List ℕ)) (es : List (List ℕ)) (s t : Svc)
      → t ≡ put K (align_up_8 size) (entry_header type (align_up_8 size) ++ body) acquired s
      → Holds s.buffers es
      → IsAcquired acquired
      → 4 + length body ≤ size
      → align_up_8 size ≤ buffer_size
      → Took acquired es (entry_of type size body) s t
  put_entry type size body acquired es s t e h size_ok fits small =
      let aligned = align_up_8_lem size in
      subst (Took acquired es (entry_of type size body) s) (sym e) (
        put-Took K (align_up_8 size) (entry_header type (align_up_8 size) ++ body) acquired es s h
          size_ok small (omega (arith, aligned.0))
          (padded_to-IsEntry type (align_up_8 size) body (omega (arith, aligned.0)) aligned.2
            (omega arith)))

  -- Whatever entries the service buffers hold, serialize_attr_desc appends the entry of its
  -- descriptor to them, or drops and counts it for want of a buffer; the cut name always fits.
  pub serialize_attr_desc-Took :
      (d : AttrDesc) (acquired : Option (List ℕ)) (es : List (List ℕ)) (s : Svc)
      → Holds s.buffers es
      → IsAcquired acquired
      → Took acquired es
          (entry_of 2 (attr_size d) (attr_body d))
          s
          (serialize_attr_desc K (some d) acquired s)
  unfolding serialize_attr_desc
  serialize_attr_desc-Took d acquired es s h size_ok =
      let name = service_string d.name in
      let short = length-service_string d.name in
      let body : length (attr_body d) ≡ 9 + length name = omega (
        arith,
        length-append (int32_bytes d.id) (type_code d.type ∷ 0 ∷ 0 ∷ 0 ∷ (name ++ 0 ∷ [])),
        length-append name (0 ∷ []),
        length-int32_bytes d.id,
      ) in
      put_entry 2 (attr_size d) (attr_body d) acquired es s _ refl h size_ok (omega arith)
        (omega (arith, align_up_8_lem (attr_size d)))

  -- Whatever entries the service buffers hold, serialize_log_mod appends the entry of its module
  -- to them, or drops and counts it for want of a buffer; the cut name always fits.
  pub serialize_log_mod-Took :
      (m : LogMod) (acquired : Option (List ℕ)) (es : List (List ℕ)) (s : Svc)
      → Holds s.buffers es
      → IsAcquired acquired
      → Took acquired es
          (entry_of 6 (mod_size m) (mod_body m))
          s
          (serialize_log_mod K (some m) acquired s)
  unfolding serialize_log_mod
  serialize_log_mod-Took m acquired es s h size_ok =
      let name = service_string m.name in
      let short = length-service_string m.name in
      let body : length (mod_body m) ≡ 5 + length name =
        omega (arith, length-append name (0 ∷ [])) in
      put_entry 6 (mod_size m) (mod_body m) acquired es s _ refl h size_ok (omega arith)
        (omega (arith, align_up_8_lem (mod_size m)))

  -- Whatever entries the service buffers hold, serialize_log_desc appends the entry of its
  -- descriptor to them, or drops and counts it for want of a buffer; the cut strings and at most
  -- 32 arguments always fit.
  pub serialize_log_desc-Took :
      (d : LogDesc) (acquired : Option (List ℕ)) (es : List (List ℕ)) (s : Svc)
      → Holds s.buffers es
      → IsAcquired acquired
      → Took acquired es
          (entry_of 1 (log_size d) (log_body d))
          s
          (serialize_log_desc K (some d) acquired s)
  unfolding serialize_log_desc
  serialize_log_desc-Took d acquired es s h size_ok =
      let file = service_string d.file in
      let func = service_string d.function in
      let fmt = service_string d.format in
      let args = varg_bytes (take (args_sent d) d.args) in
      let few : args_sent d ≤ 32 = ground arith in
      let body : length (log_body d) ≡ 20 + length file + length func + length fmt + length args =
        omega (
          arith,
          length-append file (func ++ (fmt ++ args)),
          length-append func (fmt ++ args),
          length-append fmt args,
        ) in
      let short_file = length-service_string d.file in
      let short_func = length-service_string d.function in
      let short_fmt = length-service_string d.format in
      let args_fit = length-varg_bytes (args_sent d) d.args in
      put_entry 1 (log_size d) (log_body d) acquired es s _ refl h size_ok (omega arith)
        (omega (arith, align_up_8_lem (log_size d)))

  -- Whatever entries the service buffers hold, serialize_mtk_desc appends the entry of its metric
  -- and attribute blob to them, or drops and counts it for want of a buffer, if the entry is no
  -- larger than a buffer; otherwise it changes nothing and counts nothing.
  pub serialize_mtk_desc-Took :
      (d : MtkDesc) (blob : List ℕ) (attr_count : ℕ) (acquired : Option (List ℕ))
      (es : List (List ℕ)) (s : Svc)
      → Holds s.buffers es
      → IsAcquired acquired
      → let t = serialize_mtk_desc K (some d) blob attr_count acquired s in
        ((mtk_size d blob ≤ buffer_size)
          × Took acquired es (entry_of 5 (mtk_size d blob) (mtk_body d blob attr_count)) s t)
        ⊎ ((buffer_size < mtk_size d blob) × (t ≡ s))
  unfolding serialize_mtk_desc
  serialize_mtk_desc-Took d blob attr_count acquired es s h size_ok =
      let name = service_string d.name in
      let description = service_string d.description in
      let unit = service_string d.unit in
      let body : length (mtk_body d blob attr_count)
          ≡ 28 + length name + length description + length unit + length blob =
        omega (
          arith,
          length-append (int32_bytes d.id) (
              little_endian 8 d.min
              ++ (little_endian 8 d.max
                  ++ (d.flags
                      ∷ attr_count
                      ∷ (little_endian 2 (length name)
                          ++ (little_endian 2 (length description)
                              ++ (little_endian 2 (length unit)
                                  ++ (name ++ (description ++ (unit ++ blob))))))))),
          length-int32_bytes d.id,
          length-append name (description ++ (unit ++ blob)),
          length-append description (unit ++ blob),
          length-append unit blob,
        ) in
      elim (Bool-cases (leb (mtk_size d blob) buffer_size)) [
        | inl fits ↦ inl (
          leb→le (mtk_size d blob) buffer_size fits,
          put_entry 5 (mtk_size d blob) (mtk_body d blob attr_count) acquired es s _ refl h size_ok
              (omega arith)
              (omega (
                arith,
                align_up_8_lem (mtk_size d blob),
                leb→le (mtk_size d blob) buffer_size fits,
              )),
        )
        | inr large ↦
            let too_large : buffer_size < mtk_size d blob = ground (arith, large) in
            inr (
              too_large,
              put_too_large K (align_up_8 (mtk_size d blob))
                  (entry_header 5 (align_up_8 (mtk_size d blob)) ++ mtk_body d blob attr_count)
                  acquired s (omega (arith, align_up_8_lem (mtk_size d blob))),
            )
      ]
