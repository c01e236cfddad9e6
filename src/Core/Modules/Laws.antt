-- ===== src/Core/Modules/Laws.antt =====
-- The log modules as their users see them: names, handles and verbosities.
use p.Prelude.{
  ℕ, zero, suc, ◌≡◌, ◌≢◌, refl, sym, ap, ◌∙◌, ◌⊎◌, inl, inr, Bool, true, false, Option, none, some,
  some_eq, List, [], ◌∷◌, ◌++◌, length, ◌%◌, ◌^◌, get_elem?, arith, Option-cases,
}
use mathlib.Core.Path.{subst}
use p.Kit.{Lst}
use p.Core.Descriptor.{Str, LogMod}
use p.Core.Names.{given_name, find}
use p.Core.Names.Index.{IsIndex, IsIndex-append, find_here, get_elem?_last}
use p.Core.Service.{Svc}
use p.Core.Modules.{
  Mods, Answer, store_verbosity, add_module, register_module, find_module, set_verbosity,
  get_verbosity,
}

-- The map leads every name to its module, and every module is found by its name.
abbrev pub IsMods : Mods → Type 0
IsMods m = IsIndex (λ d. d.name) (λ n. n) m.mods m.mod_map

-- A store to a verbosity, read back.
stored_here :
    (mods : List LogMod) (h v : ℕ) (m : LogMod)
    → get_elem? mods h ≡ some m
    → get_elem? (store_verbosity mods h v) h ≡ some (record m { verbosity = v })
stored_here [] h v m e = cc
stored_here (x ∷ mods) zero v m e =
    let stored : LogMod → LogMod = λ d. record d { verbosity = v } in
    ap (λ d. some (stored d)) (some_eq e)
stored_here (x ∷ mods) (suc h) v m e = stored_here mods h v m e

stored_there :
    (mods : List LogMod) (h k v : ℕ)
    → k ≢ h
    → get_elem? (store_verbosity mods h v) k ≡ get_elem? mods k
stored_there [] h k v other = refl
stored_there (x ∷ mods) zero zero v other = absurd (other refl)
stored_there (x ∷ mods) zero (suc k) v other = refl
stored_there (x ∷ mods) (suc h) zero v other = refl
stored_there (x ∷ mods) (suc h) (suc k) v other = stored_there mods h k v (λ e. other (ap suc e))

-- The stores keep the names.
named_before :
    (mods : List LogMod) (h v n : ℕ) (d : LogMod)
    → get_elem? (store_verbosity mods h v) n ≡ some d
    → (c : LogMod) × (get_elem? mods n ≡ some c) × (c.name ≡ d.name)
named_before [] h v n d e = cc
named_before (x ∷ mods) zero v zero d e = (x, refl, ap (λ c. c.name) (some_eq e))
named_before (x ∷ mods) zero v (suc n) d e = (d, e, refl)
named_before (x ∷ mods) (suc h) v zero d e = (x, refl, ap (λ c. c.name) (some_eq e))
named_before (x ∷ mods) (suc h) v (suc n) d e = named_before mods h v n d e

named_after :
    (mods : List LogMod) (h v n : ℕ) (c : LogMod)
    → get_elem? mods n ≡ some c
    → (d : LogMod) × (get_elem? (store_verbosity mods h v) n ≡ some d) × (d.name ≡ c.name)
named_after [] h v n c e = cc
named_after (x ∷ mods) zero v zero c e =
    (record x { verbosity = v }, refl, ap (λ c. c.name) (some_eq e))
named_after (x ∷ mods) zero v (suc n) c e = (c, e, refl)
named_after (x ∷ mods) (suc h) v zero c e = (x, refl, ap (λ c. c.name) (some_eq e))
named_after (x ∷ mods) (suc h) v (suc n) c e = named_after mods h v n c e

IsMods-store :
    (m : Mods) (h v : ℕ) → IsMods m → IsMods (record m { mods = store_verbosity m.mods h v })
IsMods-store m h v (there, back) = (
  λ name k found.
      let (n, c, at, held, its_name) = there name k found in
      let (d, now, same) = named_after m.mods h v n c held in (n, d, at, now, same ∙ its_name),
  λ n d held.
      let (c, before, same) = named_before m.mods h v n d held in
      let (name, its_name, found) = back n c before in (name, sym same ∙ its_name, found),
)

-- set_verbosity keeps the modules and their map in step.
pub set_verbosity-IsMods :
    (h : Option ℕ) (v : ℕ) (m : Mods) → IsMods m → IsMods (set_verbosity h v m)
unfolding set_verbosity
set_verbosity-IsMods none v m h = h
set_verbosity-IsMods (some k) v m h = IsMods-store m k v h

-- After set_verbosity on the handle of a module or on none, get_verbosity returns the level set
-- for that handle, and for another handle what it returned before.
pub get_verbosity-set_verbosity :
    (h k : Option ℕ) (v old : ℕ) (m : Mods)
    → get_verbosity h m ≡ some old
    → k ≢ h
    → (get_verbosity h (set_verbosity h v m) ≡ some v)
      × (get_verbosity k (set_verbosity h v m) ≡ get_verbosity k m)
unfolding set_verbosity get_verbosity
get_verbosity-set_verbosity none none v old m e other = absurd (other refl)
get_verbosity-set_verbosity none (some k) v old m e other = (refl, refl)
get_verbosity-set_verbosity (some h) k v old m e other = elim (Option-cases (get_elem? m.mods h)) [
  | inl missing ↦ absurd (ground (arith, rw missing at e))
  | inr (d, held) ↦ (rw (stored_here m.mods h v d held) refl, untouched k h v m other)
]
  where
    untouched :
        (k : Option ℕ) (h v : ℕ) (m : Mods)
        → k ≢ some h
        → get_verbosity k (set_verbosity (some h) v m) ≡ get_verbosity k m
    untouched none h v m other = refl
    untouched (some k) h v m other = rw (stored_there m.mods h k v (λ e. other (ap some e))) refl

-- What the user has after register_module: on success the name leads to the handle and the module
-- has the verbosity asked for; on failure the modules are as they were.
abbrev pub IsRegistered : Option Str → ℕ → Mods → Answer × Mods × Svc → Type 0
IsRegistered name v m r =
    IsMods r.1
    × (((h : ℕ) × (r.0 ≡ record { ok = true; handle = some h })
          × (find_module true name r.1 ≡ some h)
          × (get_verbosity (some h) r.1 ≡ some v))
        ⊎ ((r.0 ≡ record { ok = false; handle = none }) × (r.1 ≡ m)))

find_given :
    (name : Option Str) (s : Str) (m : Mods) (k : ℕ)
    → given_name name ≡ some s
    → find m.mod_map s ≡ some k
    → find_module true name m ≡ some k
unfolding find_module
find_given name s m k given found = rw given found

verbosity_held :
    (m : Mods) (k : ℕ) (d : LogMod)
    → get_elem? m.mods k ≡ some d
    → get_verbosity (some k) m ≡ some d.verbosity
unfolding get_verbosity
verbosity_held m k d held = rw held refl

module _ (K : Lst) where
  given_fresh :
      (name : Option Str) (s : Str) (v : ℕ) (made copied : Bool) (acquired : Option (List ℕ))
      (m : Mods) (svc : Svc)
      → given_name name ≡ some s
      → find m.mod_map s ≡ none
      → register_module K true name v true made copied acquired m svc
        ≡ add_module K s v made copied acquired m svc
  unfolding register_module
  given_fresh name s v made copied acquired m svc given fresh = rw given (rw fresh refl)

  given_known :
      (name : Option Str) (s : Str) (v : ℕ) (made copied : Bool) (acquired : Option (List ℕ))
      (m : Mods) (svc : Svc) (k : ℕ)
      → given_name name ≡ some s
      → find m.mod_map s ≡ some k
      → register_module K true name v true made copied acquired m svc ≡ (
        record { ok = true; handle = some k },
        record m { mods = store_verbosity m.mods k v },
        svc,
      )
  unfolding register_module
  given_known name s v made copied acquired m svc k given known = rw given (rw known refl)

  not_given :
      (name : Option Str) (v : ℕ) (has_out made copied : Bool) (acquired : Option (List ℕ))
      (m : Mods) (svc : Svc)
      → (has_out ≡ false) ⊎ (given_name name ≡ none)
      → register_module K true name v has_out made copied acquired m svc
        ≡ (record { ok = false; handle = none }, m, svc)
  unfolding register_module
  not_given name v has_out made copied acquired m svc (inl e) = rw e refl
  not_given name v false made copied acquired m svc (inr e) = refl
  not_given name v true made copied acquired m svc (inr e) = rw e refl

  new_module :
      (name : Option Str) (s : Str) (v : ℕ) (made copied : Bool) (acquired : Option (List ℕ))
      (m : Mods) (svc : Svc)
      → IsMods m
      → given_name name ≡ some s
      → find m.mod_map s ≡ none
      → IsRegistered name v m (add_module K s v made copied acquired m svc)
  unfolding add_module
  new_module name s v false copied acquired m svc h given fresh = (h, inr (refl, refl))
  new_module name s v true false acquired m svc h given fresh = (h, inr (refl, refl))
  new_module name s v true true acquired m svc h given fresh =
      let d : LogMod = record { name = some s; id = length m.mods % 2 ^ 16; verbosity = v } in
      let now : Mods = record m {
        mods = m.mods ++ d ∷ [];
        mod_map = (s, length m.mods) ∷ m.mod_map;
      } in
      (
        IsIndex-append (λ d. d.name) (λ n. n) m.mods m.mod_map d s h fresh refl,
        inl (
          length m.mods,
          refl,
          find_given name s now (length m.mods) given (find_here m.mod_map s (length m.mods)),
          verbosity_held now (length m.mods) d (get_elem?_last m.mods d),
        ),
      )

  -- register_module on an initialised core with modules in step: where it fails, no module is
  -- changed, and where it succeeds, find_module finds its handle under the name and get_verbosity
  -- returns the level given, also of a module known before; the modules stay in step with their
  -- map.
  pub register_module-IsRegistered :
      (name : Option Str) (v : ℕ) (has_out made copied : Bool) (acquired : Option (List ℕ))
      (m : Mods) (svc : Svc)
      → IsMods m
      → IsRegistered name v m (register_module K true name v has_out made copied acquired m svc)
  register_module-IsRegistered name v false made copied acquired m svc h =
      subst (IsRegistered name v m)
        (sym (not_given name v false made copied acquired m svc (inl refl))) (h, inr (refl, refl))
  register_module-IsRegistered name v true made copied acquired m svc h =
      elim (Option-cases (given_name name)) [
        | inl e ↦
            subst (IsRegistered name v m)
              (sym (not_given name v true made copied acquired m svc (inr e))) (h, inr (refl, refl))
        | inr (s, given) ↦ elim (Option-cases (find m.mod_map s)) [
          | inl fresh ↦
              subst (IsRegistered name v m)
                (sym (given_fresh name s v made copied acquired m svc given fresh))
                (new_module name s v made copied acquired m svc h given fresh)
          | inr (k, known) ↦
              let (n, d, at, held, its_name) = h.0 s k known in
              let now : Mods = record m { mods = store_verbosity m.mods k v } in
              let after : LogMod = record d { verbosity = v } in
              subst (IsRegistered name v m)
                (sym (given_known name s v made copied acquired m svc k given known))
                (
                  IsMods-store m k v h,
                  inl (
                    k,
                    refl,
                    find_given name s now k given known,
                    verbosity_held now k after
                        (stored_here m.mods k v d (ap (get_elem? m.mods) at ∙ held)),
                  ),
                )
        ]
      ]

  -- Where memory is given, register_module succeeds for every name that is not empty.
  pub register_module_succeeds :
      (name : Option Str) (s : Str) (v : ℕ) (acquired : Option (List ℕ)) (m : Mods) (svc : Svc)
      → given_name name ≡ some s
      → (register_module K true name v true true true acquired m svc).0.ok ≡ true
  unfolding add_module
  register_module_succeeds name s v acquired m svc given = elim (Option-cases (find m.mod_map s)) [
    | inl fresh ↦ ap (λ r. r.0.ok) (given_fresh name s v true true acquired m svc given fresh)
    | inr (k, known) ↦
        ap (λ r. r.0.ok) (given_known name s v true true acquired m svc k given known)
  ]
