-- ===== src/Core/Metrics.antt =====
-- engine/p8_core.cpp, the metric registry: register_mtk, get_mtk_count and encode_attr_blob.
pub mod Laws
pub mod Blob
use p.Prelude.{
  ℕ, zero, suc, ◌+◌, ◌-◌, ◌%◌, ◌^◌, Bool, true, false, not, ◌&&◌, Option, none, some, List, [], ◌∷◌,
  ◌++◌, ltb, ◌==◌, if◌then◌else◌, length, take, is_some,
}
use p.Kit.{Lst}
use p.Core.Descriptor.{
  Str, ℤ, pos, negsuc, to_int32, AttrType, attr_str, is_same_type, AttrDesc, MtkDesc,
}
use p.Core.Names.{is_str_equal, given_name, find}
use p.Core.Attributes.{at_id}
use p.Core.Service.{Svc, little_endian, int32_bytes, serialize_mtk_desc}

-- mo_mtk_descs, mo_mtk_name_map and mu_mtk_count
pub record Mtks : Type 0 where
  pub descs : List MtkDesc
  pub name_map : List (Str × ℤ)
  pub count : ℕ

-- s_p8_attr_val: `str` and `bits` are the two readings of its union.
pub record AttrVal : Type 0 where
  pub id : ℤ
  pub str : Option Str
  pub bits : ℕ

-- s_p8_mtk_base
pub record MtkBase : Type 0 where
  pub name : Option Str
  pub description : Option Str
  pub unit : Option Str
  pub on : Bool
  pub min : ℕ
  pub max : ℕ
  pub attrs : Option (List AttrVal)

-- What new and the three calls of str_dup answer.
pub record Allocations : Type 0 where
  pub name_copied : Bool
  pub description_copied : Bool
  pub unit_copied : Bool
  pub made : Bool

abbrev pub mtk_error_not_initialized : ℤ
mtk_error_not_initialized = negsuc 0

abbrev pub mtk_error_invalid_name : ℤ
mtk_error_invalid_name = negsuc 1

abbrev pub mtk_error_alloc_failed : ℤ
mtk_error_alloc_failed = negsuc 2

abbrev pub mtk_error_conflict : ℤ
mtk_error_conflict = negsuc 3

abbrev pub string_of : Option Str → Str
string_of none = []
string_of (some s) = s

-- A value: a string with its length in two bytes, at most UINT16_MAX, or eight bytes.
abbrev pub encode_value : AttrDesc → AttrVal → List ℕ
encode_value d v =
    let s = string_of v.str in
    let len = if ltb 65535 (length s) then 65535 else length s in
    if is_same_type d.type attr_str
    then little_endian 2 len ++ take len s
    else little_endian 8 v.bits

-- The loop over the attributes, from the count reached and the bytes written before.
abbrev pub encode_loop : List AttrDesc → List AttrVal → ℕ → List ℕ → ℕ × List ℕ
encode_loop descs [] n blob = (n, blob)
encode_loop descs (v ∷ vs) n blob = elim (at_id descs v.id) [
  | none ↦ encode_loop descs vs n blob
  | some d ↦
      let blob' = blob ++ (int32_bytes v.id ++ encode_value d v) in
      let rest = encode_loop descs vs (n + 1) blob' in if n + 1 == 255 then (n + 1, blob') else rest
]

unfoldable pub encode_attr_blob : List AttrDesc → Option (List AttrVal) → ℕ × List ℕ
encode_attr_blob descs none = (0, [])
encode_attr_blob descs (some vs) = encode_loop descs vs 0 []

abbrev pub flags_of : MtkBase → ℕ
flags_of b = if b.on then 1 else 0

-- The comparison of a registered metric with a definition; `same` is == on doubles.
abbrev pub is_same_mtk : (ℕ → ℕ → Bool) → MtkDesc → MtkBase → Bool
is_same_mtk same d b =
    (d.flags == flags_of b)
    && same d.min b.min
    && same d.max b.max
    && is_str_equal d.description b.description
    && is_str_equal d.unit b.unit

-- The name is known. none is a read outside mo_mtk_descs.
abbrev pub known_mtk : (ℕ → ℕ → Bool) → MtkBase → Option MtkDesc → Option ℤ
known_mtk same b none = none
known_mtk same b (some d) = some (if is_same_mtk same d b then d.id else mtk_error_conflict)

-- Whether every allocation that the definition asks for answers.
abbrev pub allocated : MtkBase → Allocations → Bool
allocated b m =
    m.name_copied
    && (if is_some b.description then m.description_copied else true)
    && (if is_some b.unit then m.unit_copied else true)
    && m.made

abbrev pub unchanged : Mtks → Svc → Option ℤ → Option (ℤ × Mtks × Svc)
unchanged t svc none = none
unchanged t svc (some result) = some (result, t, svc)

module _ (K : Lst) where
  unfoldable pub add_mtk :
      List AttrDesc → Str → MtkBase → Allocations → Option (List ℕ) → Mtks → Svc → ℤ × Mtks × Svc
  unfolding encode_attr_blob
  add_mtk attrs name b m acquired t svc =
      let id = to_int32 (length t.descs) in
      let (attr_count, blob) = encode_attr_blob attrs b.attrs in
      let d : MtkDesc = record {
        id = id;
        name = some name;
        description = b.description;
        unit = b.unit;
        flags = flags_of b;
        min = b.min;
        max = b.max;
      } in
      let descs = t.descs ++ d ∷ [] in
      if not (allocated b m) then (mtk_error_alloc_failed, t, svc) else (
        id,
        record { descs = descs; name_map = (name, id) ∷ t.name_map; count = length descs % 2 ^ 32 },
        serialize_mtk_desc K (some d) blob attr_count acquired svc,
      )

  abbrev pub mtk_named :
      (ℕ → ℕ → Bool)
      → List AttrDesc
      → Str
      → MtkBase
      → Allocations
      → Option (List ℕ)
      → Mtks
      → Svc
      → Option ℤ
      → Option (ℤ × Mtks × Svc)
  mtk_named same attrs name b m acquired t svc none = some (add_mtk attrs name b m acquired t svc)
  mtk_named same attrs name b m acquired t svc (some id) =
      unchanged t svc (known_mtk same b (at_id t.descs id))

  abbrev pub mtk_given :
      (ℕ → ℕ → Bool)
      → List AttrDesc
      → MtkBase
      → Allocations
      → Option (List ℕ)
      → Mtks
      → Svc
      → Option Str
      → Option (ℤ × Mtks × Svc)
  mtk_given same attrs b m acquired t svc none = some (mtk_error_invalid_name, t, svc)
  mtk_given same attrs b m acquired t svc (some name) =
      mtk_named same attrs name b m acquired t svc (find t.name_map name)

  abbrev pub mtk_of :
      (ℕ → ℕ → Bool)
      → List AttrDesc
      → Option MtkBase
      → Allocations
      → Option (List ℕ)
      → Mtks
      → Svc
      → Option (ℤ × Mtks × Svc)
  mtk_of same attrs none m acquired t svc = some (mtk_error_invalid_name, t, svc)
  mtk_of same attrs (some b) m acquired t svc =
      mtk_given same attrs b m acquired t svc (given_name b.name)

  unfoldable pub register_mtk :
      (ℕ → ℕ → Bool)
      → Bool
      → List AttrDesc
      → Option MtkBase
      → Allocations
      → Option (List ℕ)
      → Mtks
      → Svc
      → Option (ℤ × Mtks × Svc)
  unfolding add_mtk
  register_mtk same initialized attrs base m acquired t svc =
      if not initialized
      then some (mtk_error_not_initialized, t, svc)
      else mtk_of same attrs base m acquired t svc

unfoldable pub get_mtk_count : Mtks → ℕ
get_mtk_count t = t.count
