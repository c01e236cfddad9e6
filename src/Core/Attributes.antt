-- ===== src/Core/Attributes.antt =====
-- engine/p8_core.cpp, the attribute registry: attr_register, attr_get and sync_attr_cache.
pub mod Laws
use p.Prelude.{
  ℕ, zero, suc, ◌-◌, Bool, true, false, not, Option, none, some, List, [], ◌∷◌, ◌++◌, leb,
  if◌then◌else◌, length, drop, get_elem?,
}
use p.Kit.{Lst}
use p.Core.Descriptor.{Str, ℤ, pos, negsuc, to_int32, AttrType, is_same_type, AttrDesc}
use p.Core.Names.{given_name, find}
use p.Core.Service.{Svc, serialize_attr_desc}

-- mo_attr_descs and mo_attr_name_map
pub record Attrs : Type 0 where
  pub descs : List AttrDesc
  pub name_map : List (Str × ℤ)

-- The element of a vector at an id cast to size_t; none where it lies outside.
abbrev pub at_id {ℓ} : {A : Type ℓ} → List A → ℤ → Option A
at_id l (pos n) = get_elem? l n
at_id l (negsuc n) = none

abbrev pub attr_error_not_initialized : ℤ
attr_error_not_initialized = negsuc 0

abbrev pub attr_error_invalid_name : ℤ
attr_error_invalid_name = negsuc 1

abbrev pub attr_error_type_mismatch : ℤ
attr_error_type_mismatch = negsuc 2

abbrev pub attr_error_alloc_failed : ℤ
attr_error_alloc_failed = negsuc 3

abbrev pub attr_error_not_found : ℤ
attr_error_not_found = negsuc 4

-- The name is known. none is a read outside mo_attr_descs.
abbrev pub known_attr : AttrType → ℤ → Option AttrDesc → Option ℤ
known_attr type id none = none
known_attr type id (some d) =
    some (if is_same_type d.type type then id else attr_error_type_mismatch)

abbrev pub unchanged : Attrs → Svc → Option ℤ → Option (ℤ × Attrs × Svc)
unchanged a svc none = none
unchanged a svc (some result) = some (result, a, svc)

module _ (K : Lst) where
  -- `made` and `copied` are whether new and str_dup answer.
  unfoldable pub add_attr :
      Str → AttrType → Bool → Bool → Option (List ℕ) → Attrs → Svc → ℤ × Attrs × Svc
  add_attr name type made copied acquired a svc =
      let id = to_int32 (length a.descs) in
      let d : AttrDesc = record { id = id; type = type; name = some name } in
      if not made
      then (attr_error_alloc_failed, a, svc)
      else if not copied
      then (attr_error_alloc_failed, a, svc)
      else (
        id,
        record { descs = a.descs ++ d ∷ []; name_map = (name, id) ∷ a.name_map },
        serialize_attr_desc K (some d) acquired svc,
      )

  abbrev pub attr_named :
      Str
      → AttrType
      → Bool
      → Bool
      → Option (List ℕ)
      → Attrs
      → Svc
      → Option ℤ
      → Option (ℤ × Attrs × Svc)
  attr_named name type made copied acquired a svc none =
      some (add_attr name type made copied acquired a svc)
  attr_named name type made copied acquired a svc (some id) =
      unchanged a svc (known_attr type id (at_id a.descs id))

  abbrev pub attr_given :
      AttrType → Bool → Bool → Option (List ℕ) → Attrs → Svc → Option Str → Option (ℤ × Attrs × Svc)
  attr_given type made copied acquired a svc none = some (attr_error_invalid_name, a, svc)
  attr_given type made copied acquired a svc (some name) =
      attr_named name type made copied acquired a svc (find a.name_map name)

  unfoldable pub attr_register :
      Bool
      → Option Str
      → AttrType
      → Bool
      → Bool
      → Option (List ℕ)
      → Attrs
      → Svc
      → Option (ℤ × Attrs × Svc)
  unfolding add_attr
  attr_register initialized name type made copied acquired a svc =
      if not initialized
      then some (attr_error_not_initialized, a, svc)
      else attr_given type made copied acquired a svc (given_name name)

abbrev pub found_attr : Option ℤ → ℤ
found_attr none = attr_error_not_found
found_attr (some id) = id

abbrev pub attr_lookup : Attrs → Option Str → ℤ
attr_lookup a none = attr_error_not_found
attr_lookup a (some name) = found_attr (find a.name_map name)

unfoldable pub attr_get : Bool → Option Str → Attrs → ℤ
attr_get initialized name a =
    if not initialized then attr_error_not_initialized else attr_lookup a (given_name name)

-- A thread's cache of the descriptors, brought up to date.
unfoldable pub sync_attr_cache : Attrs → List AttrDesc → List AttrDesc
sync_attr_cache a cache =
    if leb (length a.descs) (length cache) then cache else cache ++ drop (length cache) a.descs
