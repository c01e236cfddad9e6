-- ===== src/Core/Attributes/Laws.antt =====
-- The registry of attributes as its users see it: names, ids and types.
use p.Prelude.{
  ℕ, ◌%◌, ◌^◌, ◌<◌, ◌≡◌, refl, sym, ap, ◌∙◌, ◌⊎◌, inl, inr, Bool, true, false, Option, none, some,
  some_eq, List, [], ◌∷◌, ◌++◌, ltb, leb, if◌then◌else◌, length, drop, get_elem?, arith, Bool-cases,
  Option-cases, length-append, drop-append_length,
}
use mathlib.Core.Path.{subst}
use mathlib.Core.List.{append-nil}
use p.Kit.{Lst}
use p.Core.Descriptor.{Str, ℤ, pos, to_int32, AttrType, is_same_type, AttrDesc}
use p.Core.Names.{given_name, find, Returns}
use p.Core.Names.Index.{IsIndex, IsIndex-append, find_here, get_elem?_last}
use p.Core.Service.{Svc, serialize_attr_desc}
use p.Core.Attributes.{
  Attrs, attr_register, add_attr, known_attr, attr_get, sync_attr_cache, attr_error_type_mismatch,
  unchanged,
}

-- The map leads every name to its attribute, and every attribute is found by its name.
abbrev pub IsAttrs : Attrs → Type 0
IsAttrs a = IsIndex (λ d. d.name) pos a.descs a.name_map

pub to_int32_lem : (n : ℕ) → n < 2 ^ 31 → to_int32 n ≡ pos n
to_int32_lem n h =
    let low : n % 2 ^ 32 ≡ n = omega arith in
    let small : ltb n (2 ^ 31) ≡ true = ground arith in rw (low, small) refl

abbrev new_attr : Str → AttrType → Attrs → AttrDesc
new_attr name type a = record { id = pos (length a.descs); type = type; name = some name }

abbrev with_attr : Str → AttrType → Attrs → Attrs
with_attr name type a = record {
  descs = a.descs ++ new_attr name type a ∷ [];
  name_map = (name, pos (length a.descs)) ∷ a.name_map;
}

-- The answer of registering a name and type in a: an id of that type, or the mismatch.
abbrev pub IsAttrAnswer : Option Str → AttrType → Attrs → ℤ × Attrs × Svc → Type 0
IsAttrAnswer name type a r =
    (n : ℕ) × (d : AttrDesc) × (attr_get true name r.1 ≡ pos n)
    × (get_elem? r.1.descs n ≡ some d)
    × (((r.0 ≡ pos n) × (is_same_type d.type type ≡ true))
        ⊎ ((r.0 ≡ attr_error_type_mismatch) × (is_same_type d.type type ≡ false) × (r.1 ≡ a)))

module _ (K : Lst) where
  -- A name that is new.
  register_new :
      (name : Option Str) (s : Str) (type : AttrType) (acquired : Option (List ℕ)) (a : Attrs)
      (svc : Svc)
      → given_name name ≡ some s
      → find a.name_map s ≡ none
      → length a.descs < 2 ^ 31
      → attr_register K true name type true true acquired a svc
        ≡ some (
          pos (length a.descs),
          with_attr s type a,
          serialize_attr_desc K (some (new_attr s type a)) acquired svc,
        )
  unfolding attr_register add_attr
  register_new name s type acquired a svc given fresh small =
      rw given (rw fresh (rw (to_int32_lem (length a.descs) small) refl))

  -- A name that is known.
  register_known :
      (name : Option Str) (s : Str) (type : AttrType) (made copied : Bool)
      (acquired : Option (List ℕ)) (a : Attrs) (svc : Svc) (n : ℕ) (d : AttrDesc)
      → given_name name ≡ some s
      → find a.name_map s ≡ some (pos n)
      → get_elem? a.descs n ≡ some d
      → attr_register K true name type made copied acquired a svc
        ≡ some (if is_same_type d.type type then pos n else attr_error_type_mismatch, a, svc)
  unfolding attr_register
  register_known name s type made copied acquired a svc n d given known held =
      rw given (rw known (ap (λ o. unchanged a svc (known_attr type (pos n) o)) held))

  register_failed :
      (name : Option Str) (s : Str) (type : AttrType) (made copied : Bool)
      (acquired : Option (List ℕ)) (a : Attrs) (svc : Svc)
      → given_name name ≡ some s
      → find a.name_map s ≡ none
      → length a.descs < 2 ^ 31
      → IsAttrs a
      → Returns (attr_register K true name type made copied acquired a svc) (λ r. IsAttrs r.1)
  unfolding attr_register add_attr
  register_failed name s type false copied acquired a svc given fresh small h =
      rw given (rw fresh h)
  register_failed name s type true false acquired a svc given fresh small h = rw given (rw fresh h)
  register_failed name s type true true acquired a svc given fresh small h =
      subst (λ r. Returns r (λ r. IsAttrs r.1))
        (sym (register_new name s type acquired a svc given fresh small))
        (IsIndex-append (λ d. d.name) pos a.descs a.name_map (new_attr s type a) s h fresh refl)

  register_empty :
      (name : Option Str) (type : AttrType) (made copied : Bool) (acquired : Option (List ℕ))
      (a : Attrs) (svc : Svc)
      → given_name name ≡ none
      → IsAttrs a
      → Returns (attr_register K true name type made copied acquired a svc) (λ r. IsAttrs r.1)
  unfolding attr_register
  register_empty name type made copied acquired a svc e h = rw e h

  register_before :
      (name : Option Str) (type : AttrType) (made copied : Bool) (acquired : Option (List ℕ))
      (a : Attrs) (svc : Svc)
      → IsAttrs a
      → Returns (attr_register K false name type made copied acquired a svc) (λ r. IsAttrs r.1)
  unfolding attr_register
  register_before name type made copied acquired a svc h = h

  -- attr_register keeps the map and the vector of the attributes in step on every branch, failed
  -- allocations included, and never reads outside the vector, while there are fewer than 2^31
  -- attributes.
  pub attr_register-IsAttrs :
      (initialized : Bool) (name : Option Str) (type : AttrType) (made copied : Bool)
      (acquired : Option (List ℕ)) (a : Attrs) (svc : Svc)
      → length a.descs < 2 ^ 31
      → IsAttrs a
      → Returns
          (attr_register K initialized name type made copied acquired a svc)
          (λ r. IsAttrs r.1)
  attr_register-IsAttrs false name type made copied acquired a svc small h =
      register_before name type made copied acquired a svc h
  attr_register-IsAttrs true name type made copied acquired a svc small h =
      elim (Option-cases (given_name name)) [
        | inl e ↦ register_empty name type made copied acquired a svc e h
        | inr (s, given) ↦ elim (Option-cases (find a.name_map s)) [
          | inl fresh ↦ register_failed name s type made copied acquired a svc given fresh small h
          | inr (id, known) ↦
              let (n, d, at, held, its_name) = h.0 s id known in
              subst (λ r. Returns r (λ r. IsAttrs r.1))
                (sym (
                  register_known name s type made copied acquired a svc n d given
                    (known ∙ ap some at) held))
                h
        ]
      ]

  -- For a name that is not empty, with memory given and a registry in step with fewer than 2^31
  -- attributes, attr_register returns the id under which attr_get then finds the name, of an
  -- attribute of the type asked for, or reports the name's other type and changes nothing.
  pub attr_get-attr_register :
      (name : Option Str) (s : Str) (type : AttrType) (acquired : Option (List ℕ)) (a : Attrs)
      (svc : Svc)
      → given_name name ≡ some s
      → length a.descs < 2 ^ 31
      → IsAttrs a
      → Returns (attr_register K true name type true true acquired a svc) (IsAttrAnswer name type a)
  unfolding attr_get
  attr_get-attr_register name s type acquired a svc given small h =
      elim (Option-cases (find a.name_map s)) [
        | inl fresh ↦
            subst (λ r. Returns r (IsAttrAnswer name type a))
              (sym (register_new name s type acquired a svc given fresh small))
              (
                length a.descs,
                new_attr s type a,
                rw given (rw (find_here a.name_map s (pos (length a.descs))) refl),
                get_elem?_last a.descs (new_attr s type a),
                inl (refl, ground arith),
              )
        | inr (id, known) ↦
            let (n, d, at, held, its_name) = h.0 s id known in
            let known_at = known ∙ ap some at in
            subst (λ r. Returns r (IsAttrAnswer name type a))
              (sym (register_known name s type true true acquired a svc n d given known_at held))
              (
                n,
                d,
                rw given (rw known_at refl),
                held,
                elim (Bool-cases (is_same_type d.type type)) [
                  | inl same ↦ inl (rw same refl, same)
                  | inr other ↦ inr (rw other refl, other, refl)
                ],
              )
      ]

  -- Once attr_register has returned an id for a name that is not empty, from a registry in step
  -- with fewer than 2^31 attributes, it returns the same id for this name and type again, whatever
  -- memory is given, and changes nothing.
  pub attr_register_again :
      (name : Option Str) (s : Str) (type : AttrType) (made copied : Bool)
      (acquired again : Option (List ℕ)) (a b : Attrs) (svc svc' svc2 : Svc) (n : ℕ)
      → given_name name ≡ some s
      → length a.descs < 2 ^ 31
      → IsAttrs a
      → attr_register K true name type true true acquired a svc ≡ some (pos n, b, svc')
      → attr_register K true name type made copied again b svc2 ≡ some (pos n, b, svc2)
  attr_register_again name s type made copied acquired again a b svc svc' svc2 n given small h e =
      elim (Option-cases (find a.name_map s)) [
        | inl fresh ↦
            let same : is_same_type type type ≡ true = ground arith in
            let r = some_eq (sym (register_new name s type acquired a svc given fresh small) ∙ e) in
            subst
              (λ q.
                attr_register K true name type made copied again q.1 svc2 ≡ some (q.0, q.1, svc2))
              r
              (register_known name s type made copied again (with_attr s type a) svc2
                  (length a.descs) (new_attr s type a) given
                  (find_here a.name_map s (pos (length a.descs)))
                  (get_elem?_last a.descs (new_attr s type a))
                ∙ rw same refl)
        | inr (id, known) ↦
            let (m, d, at, held, its_name) = h.0 s id known in
            let known_at = known ∙ ap some at in
            let r = some_eq (
              sym (register_known name s type true true acquired a svc m d given known_at held)
              ∙ e) in
            subst
              (λ q.
                attr_register K true name type made copied again q.1 svc2 ≡ some (q.0, q.1, svc2))
              r (register_known name s type made copied again a svc2 m d given known_at held)
      ]

-- A cache that holds the first descriptors of the registry holds all of them once it is brought up
-- to date.
pub sync_attr_cache_lem :
    (a : Attrs) (cache rest : List AttrDesc)
    → a.descs ≡ cache ++ rest
    → sync_attr_cache a cache ≡ a.descs
unfolding sync_attr_cache
sync_attr_cache_lem a cache [] e =
    let full : leb (length a.descs) (length cache) ≡ true =
      ground (arith, ap length e, length-append cache []) in
    rw full (sym (e ∙ append-nil cache))
sync_attr_cache_lem a cache (d ∷ rest) e =
    let behind : leb (length a.descs) (length cache) ≡ false =
      ground (arith, ap length e, length-append cache (d ∷ rest)) in
    rw behind (
      ap (λ l. cache ++ drop (length cache) l) e
      ∙ ap (◌++◌ cache) (drop-append_length cache (d ∷ rest))
      ∙ sym e)
