-- ===== src/Core/Metrics/Laws.antt =====
-- The metric registry as its users see it: names, definitions and ids.
use p.Prelude.{
  ℕ, ◌%◌, ◌^◌, ◌<◌, ◌≡◌, refl, sym, ap, ◌∙◌, ◌⊎◌, inl, inr, Bool, true, false, Option, none, some,
  List, [], ◌∷◌, ◌++◌, ==_iff, arith, if◌then◌else◌, length, get_elem?, Bool-cases, Option-cases,
}
use mathlib.Core.Path.{subst}
use p.Kit.{Lst}
use p.Core.Descriptor.{Str, ℤ, pos, AttrDesc, MtkDesc}
use p.Core.Names.{given_name, find, is_str_equal, Returns}
use p.Core.Names.Index.{
  IsIndex, IsIndex-append, find_here, get_elem?_last, get_elem?_cases, str_eq_refl, str_eq→≡,
}
use p.Core.Service.{Svc, serialize_mtk_desc}
use p.Core.Attributes.Laws.{to_int32_lem}
use p.Core.Metrics.{
  Mtks, MtkBase, Allocations, allocated, flags_of, is_same_mtk, known_mtk, unchanged,
  encode_attr_blob, add_mtk, register_mtk, mtk_error_conflict,
}

-- The map and the vector are in step, an id is its descriptor's place, and the count is the size.
abbrev pub IsMtks : Mtks → Type 0
IsMtks t =
    IsIndex (λ d. d.name) pos t.descs t.name_map
    × ((n : ℕ) (d : MtkDesc) → get_elem? t.descs n ≡ some d → d.id ≡ pos n)
    × (t.count ≡ length t.descs % 2 ^ 32)

abbrev new_mtk : Str → MtkBase → Mtks → MtkDesc
new_mtk name b t = record {
  id = pos (length t.descs);
  name = some name;
  description = b.description;
  unit = b.unit;
  flags = flags_of b;
  min = b.min;
  max = b.max;
}

abbrev with_mtk : Str → MtkBase → Mtks → Mtks
with_mtk name b t = record {
  descs = t.descs ++ new_mtk name b t ∷ [];
  name_map = (name, pos (length t.descs)) ∷ t.name_map;
  count = length (t.descs ++ new_mtk name b t ∷ []) % 2 ^ 32;
}

IsMtks-with_mtk :
    (s : Str) (b : MtkBase) (t : Mtks)
    → IsMtks t
    → find t.name_map s ≡ none
    → IsMtks (with_mtk s b t)
IsMtks-with_mtk s b t (index, ids, count) fresh = (
  IsIndex-append (λ d. d.name) pos t.descs t.name_map (new_mtk s b t) s index fresh refl,
  λ n d held. elim (get_elem?_cases t.descs d (new_mtk s b t) n held) [
    | inl old ↦ ids n d old
    | inr (last, same) ↦ ap (λ d. d.id) (sym same) ∙ ap pos (sym last)
  ],
  refl,
)

-- A metric that is as a definition says: the flag of its state, the bounds up to the comparison of
-- doubles, the texts of its description and its unit, or no text where the definition has none.
abbrev pub IsDefined : (ℕ → ℕ → Bool) → MtkDesc → MtkBase → Type 0
IsDefined same d b =
    (d.flags ≡ (if b.on then 1 else 0))
    × (same d.min b.min ≡ true)
    × (same d.max b.max ≡ true)
    × (d.description ≡ b.description)
    × (d.unit ≡ b.unit)

-- The answer of registering a definition in t: an id of a metric of this definition, or the
-- conflict.
abbrev pub IsMtkAnswer : (ℕ → ℕ → Bool) → Str → MtkBase → Mtks → ℤ × Mtks × Svc → Type 0
IsMtkAnswer same s b t r =
    (n : ℕ) × (d : MtkDesc) × (find r.1.name_map s ≡ some (pos n))
    × (get_elem? r.1.descs n ≡ some d)
    × (((r.0 ≡ pos n) × IsDefined same d b)
        ⊎ ((r.0 ≡ mtk_error_conflict) × (¬ IsDefined same d b) × (r.1 ≡ t)))

is_str_equal_refl : (s : Option Str) → is_str_equal s s ≡ true
is_str_equal_refl none = refl
is_str_equal_refl (some s) = str_eq_refl s

is_str_equal→≡ : (s t : Option Str) → is_str_equal s t ≡ true → s ≡ t
is_str_equal→≡ none none e = refl
is_str_equal→≡ none (some t) e = cc
is_str_equal→≡ (some s) none e = cc
is_str_equal→≡ (some s) (some t) e = ap some (str_eq→≡ s t e)

is_same_mtk→IsDefined :
    (same : ℕ → ℕ → Bool) (d : MtkDesc) (b : MtkBase)
    → is_same_mtk same d b ≡ true
    → IsDefined same d b
is_same_mtk→IsDefined same d b e =
    ground (arith, is_str_equal→≡ d.description b.description, is_str_equal→≡ d.unit b.unit)

IsDefined→is_same_mtk :
    (same : ℕ → ℕ → Bool) (d : MtkDesc) (b : MtkBase)
    → IsDefined same d b
    → is_same_mtk same d b ≡ true
IsDefined→is_same_mtk same d b (flags, hmin, hmax, description, unit) =
    rw
      (
        (==_iff d.flags (flags_of b)).1 flags,
        hmin,
        hmax,
        sym description,
        sym unit,
        is_str_equal_refl d.description,
        is_str_equal_refl d.unit,
      )
      refl

module _ (K : Lst) (same : ℕ → ℕ → Bool) (attrs : List AttrDesc) where
  mtk_new :
      (b : MtkBase) (s : Str) (m : Allocations) (acquired : Option (List ℕ)) (t : Mtks) (svc : Svc)
      → given_name b.name ≡ some s
      → find t.name_map s ≡ none
      → length t.descs < 2 ^ 31
      → allocated b m ≡ true
      → let blob = encode_attr_blob attrs b.attrs in
        register_mtk K same true attrs (some b) m acquired t svc
        ≡ some (
          pos (length t.descs),
          with_mtk s b t,
          serialize_mtk_desc K (some (new_mtk s b t)) blob.1 blob.0 acquired svc,
        )
  unfolding register_mtk add_mtk
  mtk_new b s m acquired t svc given fresh small memory =
      rw given (rw fresh (rw memory (rw (to_int32_lem (length t.descs) small) refl)))

  mtk_failed :
      (b : MtkBase) (s : Str) (m : Allocations) (acquired : Option (List ℕ)) (t : Mtks) (svc : Svc)
      → given_name b.name ≡ some s
      → find t.name_map s ≡ none
      → allocated b m ≡ false
      → IsMtks t
      → Returns (register_mtk K same true attrs (some b) m acquired t svc) (λ r. IsMtks r.1)
  unfolding register_mtk add_mtk
  mtk_failed b s m acquired t svc given fresh memory h = rw given (rw fresh (rw memory h))

  mtk_known :
      (b : MtkBase) (s : Str) (m : Allocations) (acquired : Option (List ℕ)) (t : Mtks) (svc : Svc)
      (n : ℕ) (d : MtkDesc)
      → given_name b.name ≡ some s
      → find t.name_map s ≡ some (pos n)
      → get_elem? t.descs n ≡ some d
      → register_mtk K same true attrs (some b) m acquired t svc
        ≡ some (if is_same_mtk same d b then d.id else mtk_error_conflict, t, svc)
  unfolding register_mtk
  mtk_known b s m acquired t svc n d given known held =
      rw given (rw known (ap (λ o. unchanged t svc (known_mtk same b o)) held))

  mtk_unnamed :
      (b : MtkBase) (m : Allocations) (acquired : Option (List ℕ)) (t : Mtks) (svc : Svc)
      → given_name b.name ≡ none
      → IsMtks t
      → Returns (register_mtk K same true attrs (some b) m acquired t svc) (λ r. IsMtks r.1)
  unfolding register_mtk
  mtk_unnamed b m acquired t svc e h = rw e h

  mtk_absent :
      (initialized : Bool) (base : Option MtkBase) (m : Allocations) (acquired : Option (List ℕ))
      (t : Mtks) (svc : Svc)
      → (initialized ≡ false) ⊎ (base ≡ none)
      → IsMtks t
      → Returns (register_mtk K same initialized attrs base m acquired t svc) (λ r. IsMtks r.1)
  unfolding register_mtk
  mtk_absent initialized base m acquired t svc (inl e) h = rw e h
  mtk_absent false base m acquired t svc (inr e) h = h
  mtk_absent true base m acquired t svc (inr e) h = rw e h

  -- register_mtk keeps the registry in step on every branch, failed allocations included, and
  -- never reads outside the vector, while there are fewer than 2^31 metrics: names and places
  -- agree, every id is its metric's place, and the count is the number of metrics modulo 2^32.
  pub register_mtk-IsMtks :
      (initialized : Bool) (base : Option MtkBase) (m : Allocations) (acquired : Option (List ℕ))
      (t : Mtks) (svc : Svc)
      → length t.descs < 2 ^ 31
      → IsMtks t
      → Returns (register_mtk K same initialized attrs base m acquired t svc) (λ r. IsMtks r.1)
  register_mtk-IsMtks false base m acquired t svc small h =
      mtk_absent false base m acquired t svc (inl refl) h
  register_mtk-IsMtks true none m acquired t svc small h =
      mtk_absent true none m acquired t svc (inr refl) h
  register_mtk-IsMtks true (some b) m acquired t svc small h =
      elim (Option-cases (given_name b.name)) [
        | inl e ↦ mtk_unnamed b m acquired t svc e h
        | inr (s, given) ↦ elim (Option-cases (find t.name_map s)) [
          | inl fresh ↦ elim (Bool-cases (allocated b m)) [
            | inl memory ↦
                subst (λ r. Returns r (λ r. IsMtks r.1))
                  (sym (mtk_new b s m acquired t svc given fresh small memory))
                  (IsMtks-with_mtk s b t h fresh)
            | inr failed ↦ mtk_failed b s m acquired t svc given fresh failed h
          ]
          | inr (id, known) ↦
              let (n, d, at, held, its_name) = h.0.0 s id known in
              subst (λ r. Returns r (λ r. IsMtks r.1))
                (sym (mtk_known b s m acquired t svc n d given (known ∙ ap some at) held)) h
        ]
      ]

  -- For a name that is not empty and bounds that equal themselves, with memory given and a
  -- registry in step with fewer than 2^31 metrics, register_mtk returns the id that the name then
  -- leads to, of a metric with the state, the bounds, the description and the unit of just this
  -- definition, or the name leads to a metric that differs in one of these, and it reports the
  -- conflict and changes nothing.
  pub register_mtk-IsMtkAnswer :
      (b : MtkBase) (s : Str) (m : Allocations) (acquired : Option (List ℕ)) (t : Mtks) (svc : Svc)
      → given_name b.name ≡ some s
      → allocated b m ≡ true
      → same b.min b.min ≡ true
      → same b.max b.max ≡ true
      → length t.descs < 2 ^ 31
      → IsMtks t
      → Returns (register_mtk K same true attrs (some b) m acquired t svc) (IsMtkAnswer same s b t)
  register_mtk-IsMtkAnswer b s m acquired t svc given memory hmin hmax small h =
      elim (Option-cases (find t.name_map s)) [
        | inl fresh ↦
            subst (λ r. Returns r (IsMtkAnswer same s b t))
              (sym (mtk_new b s m acquired t svc given fresh small memory))
              (
                length t.descs,
                new_mtk s b t,
                find_here t.name_map s (pos (length t.descs)),
                get_elem?_last t.descs (new_mtk s b t),
                inl (refl, (refl, hmin, hmax, refl, refl)),
              )
        | inr (id, known) ↦
            let (n, d, at, held, its_name) = h.0.0 s id known in
            let known_at = known ∙ ap some at in
            subst (λ r. Returns r (IsMtkAnswer same s b t))
              (sym (mtk_known b s m acquired t svc n d given known_at held))
              (
                n,
                d,
                known_at,
                held,
                elim (Bool-cases (is_same_mtk same d b)) [
                  | inl alike ↦ inl (rw alike (h.1 n d held), is_same_mtk→IsDefined same d b alike)
                  | inr other ↦ inr (
                    rw other refl,
                    λ defined. absurd (cc (sym (IsDefined→is_same_mtk same d b defined) ∙ other)),
                    refl,
                  )
                ],
              )
      ]
