-- ===== src/Core/Registry/History.antt =====
-- A registry of writers that start and end, in whatever order.
use p.Prelude.{
  ℕ, suc, ◌≡◌, refl, ap, ◌∙◌, Bool, true, not, ◌&&◌, none, List, [], ◌∷◌, ltb, length, arith,
}
use p.Budget.{word}
use p.Core.Registry.{Links, Registry, no_writers, register_writer, unregister_writer, visit}
use p.Core.Registry.Chain.{has, without, IsRegistry, register_writer-IsRegistry, visit_lem}
use p.Core.Registry.Unlink.{unregister_writer-IsRegistry}

pub data Change : Type 0 where
  started : ℕ → Change
  ended : ℕ → Change

abbrev pub changed : List Change → Registry → Registry
changed [] r = r
changed (started w ∷ changes) r = changed changes (register_writer w r)
changed (ended w ∷ changes) r = changed changes (unregister_writer w r)

-- The writers that have started and not ended, the newest first.
abbrev pub live : List Change → List ℕ → List ℕ
live [] ws = ws
live (started w ∷ changes) ws = live changes (w ∷ ws)
live (ended w ∷ changes) ws = live changes (without w ws)

-- A writer starts when it is not live, and while their count has room; it ends when it is live.
abbrev pub alternates : List Change → List ℕ → Bool
alternates [] ws = true
alternates (started w ∷ changes) ws =
    not (has w ws) && ltb (suc (length ws)) word && alternates changes (w ∷ ws)
alternates (ended w ∷ changes) ws = has w ws && alternates changes (without w ws)

-- The links of the registry are those of the list, and a loop over it visits the list.
abbrev pub IsListed : Registry → List ℕ → Type 0
IsListed r ws = IsRegistry r ws × (visit r.nodes r.count r.head ≡ ws)

changed-IsRegistry :
    (changes : List Change) (r : Registry) (ws : List ℕ)
    → IsRegistry r ws
    → alternates changes ws ≡ true
    → IsRegistry (changed changes r) (live changes ws)
changed-IsRegistry [] r ws h ok = h
changed-IsRegistry (started w ∷ changes) r ws h ok =
    changed-IsRegistry changes (register_writer w r) (w ∷ ws)
      (register_writer-IsRegistry r w ws h (ground (arith, ok)) (ground (arith, ok)))
      (ground (arith, ok))
changed-IsRegistry (ended w ∷ changes) r ws h ok =
    changed-IsRegistry changes (unregister_writer w r) (without w ws)
      (unregister_writer-IsRegistry r w ws h (ground (arith, ok))) (ground (arith, ok))

-- When writers start and end in any order, each starting only while it is not registered and
-- ending only while it is, and fewer than 2^64 at a time, the links of the registry are those of
-- the doubly linked list of the writers that have started and not ended, the newest first, its
-- count is their number, and a loop over the registry visits exactly these, each once, in this
-- order.
pub changed-IsListed :
    (nodes : ℕ → Links) (changes : List Change)
    → alternates changes [] ≡ true
    → IsListed (changed changes (no_writers nodes)) (live changes [])
changed-IsListed nodes changes ok =
    let h : IsRegistry (changed changes (no_writers nodes)) (live changes []) =
      changed-IsRegistry changes (no_writers nodes) []
        (record { chain = refl; count = refl; small = omega arith }) ok in
    let r = changed changes (no_writers nodes) in
    (
      h,
      ap (λ n. visit r.nodes n r.head) h.count
          ∙ visit_lem r.nodes r.head none (live changes []) h.chain,
    )
