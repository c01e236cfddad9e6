-- ===== src/Core/LogDescs/Laws.antt =====
-- What resolve_log_desc promises its callers.
use p.Prelude.{
  not, ◌==◌, if_cases, ap, ◌∙◌, ℕ, ◌≡◌, refl, sym, inl, inr, Bool, true, Option, none, some, List,
  [], ◌∷◌, ==_iff, Option-cases,
}
use mathlib.Core.Path.{subst}
use p.Kit.{Lst}
use p.Core.Descriptor.{LogDesc}
use p.Format.{Platform}
use p.Core.Service.{Svc, serialize_log_desc}
use p.Core.LogDescs.{find_desc, known_or_new, Site, describe, resolve_log_desc}

-- A call of resolve_log_desc.
pub record SiteCall : Type 0 where
  pub hash : ℕ
  pub site : Site
  pub made : Bool
  pub acquired : Option (List ℕ)

module _ (K : Lst) where
  resolve_known :
      (p : Platform) (hash : ℕ) (site : Site) (made : Bool) (acquired : Option (List ℕ))
      (descs : List (ℕ × LogDesc)) (svc : Svc) (d : LogDesc)
      → find_desc descs hash ≡ some d
      → resolve_log_desc K p hash site made acquired descs svc ≡ (some d, descs, svc)
  unfolding resolve_log_desc
  resolve_known p hash site made acquired descs svc d known = rw known refl

  resolve_new :
      (p : Platform) (hash : ℕ) (site : Site) (acquired : Option (List ℕ))
      (descs : List (ℕ × LogDesc)) (svc : Svc)
      → find_desc descs hash ≡ none
      → let d = describe p hash site in
        resolve_log_desc K p hash site true acquired descs svc
        ≡ (some d, (hash, d) ∷ descs, serialize_log_desc K (some d) acquired svc)
  unfolding resolve_log_desc
  resolve_new p hash site acquired descs svc fresh = rw fresh refl

  -- What a sequence of calls leaves of the descriptors and the service buffers.
  abbrev pub resolve_all :
      Platform → List SiteCall → List (ℕ × LogDesc) → Svc → List (ℕ × LogDesc) × Svc
  resolve_all p [] descs svc = (descs, svc)
  resolve_all p (c ∷ calls) descs svc =
      let r = resolve_log_desc K p c.hash c.site c.made c.acquired descs svc in
      resolve_all p calls r.1 r.2

  -- A call keeps every descriptor that is there.
  resolve_keeps :
      (p : Platform) (c : SiteCall) (descs : List (ℕ × LogDesc)) (svc : Svc) (hash : ℕ)
      (d : LogDesc)
      → find_desc descs hash ≡ some d
      → find_desc (resolve_log_desc K p c.hash c.site c.made c.acquired descs svc).1 hash ≡ some d
  unfolding resolve_log_desc
  resolve_keeps p c descs svc hash d known = elim (Option-cases (find_desc descs c.hash)) [
    | inl fresh ↦
        subst
          (λ o.
            find_desc (known_or_new K p c.hash c.site c.made c.acquired descs svc o).1 hash
            ≡ some d)
          (sym fresh)
          (if_cases (λ (r : Option LogDesc × List (ℕ × LogDesc) × Svc). find_desc r.1 hash ≡ some d)
            (not c.made) _ _ (λ failed. known)
            (λ memory.
              if_cases (λ (o : Option LogDesc). o ≡ some d) (c.hash == hash) _ _
                (λ same.
                  absurd
                    (cc (sym fresh ∙ ap (find_desc descs) ((==_iff c.hash hash).0 same) ∙ known)))
                (λ other. known)))
    | inr (e, there) ↦ rw there known
  ]

  resolve_all_keeps :
      (p : Platform) (calls : List SiteCall) (descs : List (ℕ × LogDesc)) (svc : Svc) (hash : ℕ)
      (d : LogDesc)
      → find_desc descs hash ≡ some d
      → find_desc (resolve_all p calls descs svc).0 hash ≡ some d
  resolve_all_keeps p [] descs svc hash d known = known
  resolve_all_keeps p (c ∷ calls) descs svc hash d known =
      let r = resolve_log_desc K p c.hash c.site c.made c.acquired descs svc in
      resolve_all_keeps p calls r.1 r.2 hash d (resolve_keeps p c descs svc hash d known)

  -- A call for which memory is given leaves its descriptor behind: the one that was there, or that
  -- of its site.
  resolve_leaves :
      (p : Platform) (hash : ℕ) (site : Site) (acquired : Option (List ℕ))
      (descs : List (ℕ × LogDesc)) (svc : Svc)
      → let r = resolve_log_desc K p hash site true acquired descs svc in
        (d : LogDesc) × (r.0 ≡ some d) × (find_desc r.1 hash ≡ some d)
  resolve_leaves p hash site acquired descs svc = elim (Option-cases (find_desc descs hash)) [
    | inl fresh ↦
        let d = describe p hash site in
        let here : find_desc ((hash, d) ∷ descs) hash ≡ some d =
          rw ((==_iff hash hash).1 refl) refl in
        subst (λ r. (d : LogDesc) × (r.0 ≡ some d) × (find_desc r.1 hash ≡ some d))
          (sym (resolve_new p hash site acquired descs svc fresh)) (d, refl, here)
    | inr (d, known) ↦
        subst (λ r. (d : LogDesc) × (r.0 ≡ some d) × (find_desc r.1 hash ≡ some d))
          (sym (resolve_known p hash site true acquired descs svc d known)) (d, refl, known)
  ]

  -- Where memory is given, resolve_log_desc returns a descriptor, and after any further calls, for
  -- whatever hashes and sites and whether memory is given or not, a call with the same hash, from
  -- whatever site, returns the same one and changes neither the descriptors nor the service
  -- buffers.
  pub resolve_log_desc_once :
      (p : Platform) (hash : ℕ) (site other : Site) (made : Bool) (acquired again : Option (List ℕ))
      (calls : List SiteCall) (descs : List (ℕ × LogDesc)) (svc : Svc)
      → let r = resolve_log_desc K p hash site true acquired descs svc in
        let s = resolve_all p calls r.1 r.2 in
        (d : LogDesc) × (r.0 ≡ some d)
        × (resolve_log_desc K p hash other made again s.0 s.1 ≡ (some d, s.0, s.1))
  resolve_log_desc_once p hash site other made acquired again calls descs svc =
      let r = resolve_log_desc K p hash site true acquired descs svc in
      let s = resolve_all p calls r.1 r.2 in
      let (d, got, left) = resolve_leaves p hash site acquired descs svc in
      (
        d,
        got,
        resolve_known p hash other made again s.0 s.1 d
            (resolve_all_keeps p calls r.1 r.2 hash d left),
      )
