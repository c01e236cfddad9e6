-- ===== src/Core/Registry/Chain.antt =====
-- The doubly linked list of the writers as a list.
use p.Prelude.{
  ℕ, suc, ◌<◌, ◌≡◌, refl, sym, ap, ◌∙◌, Bool, false, ◌||◌, Option, none, some, List, [], ◌∷◌, ◌==◌,
  if◌then◌else◌, arith, length,
}
use mathlib.Core.Path.{subst}
use p.Budget.{word}
use p.Core.Registry.{Links, Registry, put, set_next, set_prev, register_writer, visit}

abbrev pub has : ℕ → List ℕ → Bool
has a [] = false
has a (x ∷ xs) = (a == x) || has a xs

-- Without the first occurrence of a writer.
abbrev pub without : ℕ → List ℕ → List ℕ
without a [] = []
without a (x ∷ xs) = if a == x then xs else x ∷ without a xs

abbrev pub points_to : Option ℕ → ℕ → Bool
points_to none a = false
points_to (some b) a = a == b

-- From `start`, whose predecessor is `prev`, the links lead through the distinct writers `ws`.
abbrev pub Chain : (ℕ → Links) → Option ℕ → Option ℕ → List ℕ → Type 0
Chain nodes start prev [] = start ≡ none
Chain nodes start prev (w ∷ ws) =
    (start ≡ some w)
    × (has w ws ≡ false)
    × ((nodes w).prev ≡ prev)
    × Chain nodes (nodes w).next (some w) ws

pub record IsRegistry (r : Registry) (ws : List ℕ) : Type 0 where
  pub chain : Chain r.nodes r.head none ws
  pub count : r.count ≡ length ws
  pub small : length ws < word

Chain-put :
    (nodes : ℕ → Links) (a : ℕ) (v : Links) (start prev : Option ℕ) (ws : List ℕ)
    → has a ws ≡ false
    → Chain nodes start prev ws
    → Chain (put nodes a v) start prev ws
Chain-put nodes a v start prev [] out c = c
Chain-put nodes a v start prev (w ∷ ws) out c =
    ground (arith, Chain-put nodes a v (nodes w).next (some w) ws)

-- The head of a chain takes a predecessor.
Chain-set_prev :
    (nodes : ℕ → Links) (w : ℕ) (start : Option ℕ) (ws : List ℕ)
    → Chain nodes start none ws
    → Chain (set_prev start (some w) nodes) start (some w) ws
Chain-set_prev nodes w none [] c = c
Chain-set_prev nodes w (some x) [] c = absurd (cc c)
Chain-set_prev nodes w none (x ∷ ws) c = absurd (cc c.0)
Chain-set_prev nodes w (some y) (x ∷ ws) (e, out, first, c) =
    let same : y ≡ x = cc e in
    subst (λ z. Chain (set_prev (some z) (some w) nodes) (some z) (some w) (x ∷ ws)) (sym same)
      (
        refl,
        out,
        ground arith,
        ground (
          arith,
          Chain-put nodes x (record (nodes x) { prev = some w }) (nodes x).next (some x) ws out c,
        ),
      )

pub set_next-links :
    (nodes : ℕ → Links) (p v : Option ℕ) (a : ℕ)
    → ((set_next p v nodes a).next ≡ (if points_to p a then v else (nodes a).next))
      × ((set_next p v nodes a).prev ≡ (nodes a).prev)
set_next-links nodes none v a = (refl, refl)
set_next-links nodes (some p) v a = (ground arith, ground arith)

pub set_prev-links :
    (nodes : ℕ → Links) (n v : Option ℕ) (a : ℕ)
    → ((set_prev n v nodes a).prev ≡ (if points_to n a then v else (nodes a).prev))
      × ((set_prev n v nodes a).next ≡ (nodes a).next)
set_prev-links nodes none v a = (refl, refl)
set_prev-links nodes (some n) v a = (ground arith, ground arith)

head_out :
    (nodes : ℕ → Links) (w : ℕ) (start prev : Option ℕ) (ws : List ℕ)
    → Chain nodes start prev ws
    → has w ws ≡ false
    → points_to start w ≡ false
head_out nodes w start prev [] c out = ap (λ o. points_to o w) c
head_out nodes w start prev (x ∷ ws) c out = ground arith

pub register_writer-IsRegistry :
    (r : Registry) (w : ℕ) (ws : List ℕ)
    → IsRegistry r ws
    → has w ws ≡ false
    → suc (length ws) < word
    → IsRegistry (register_writer w r) (w ∷ ws)
unfolding register_writer
register_writer-IsRegistry r w ws h out room =
    let fresh : Links = record { next = r.head; prev = none } in
    let set : Chain (set_prev r.head (some w) (put r.nodes w fresh)) r.head (some w) ws =
      Chain-set_prev (put r.nodes w fresh) w r.head ws
        (Chain-put r.nodes w fresh r.head none ws out h.chain) in
    let kept = set_prev-links (put r.nodes w fresh) r.head (some w) w in
    record {
      chain = (
        refl,
        out,
        ground (arith, kept.0, head_out r.nodes w r.head none ws h.chain out),
        subst (λ n. Chain (set_prev r.head (some w) (put r.nodes w fresh)) n (some w) ws)
            (sym (ground (arith, kept.1))) set,
      );
      count = ground (arith, h.count);
      small = room;
    }

-- A loop over the registry visits every writer once, from the head on.
pub visit_lem :
    (nodes : ℕ → Links) (start prev : Option ℕ) (ws : List ℕ)
    → Chain nodes start prev ws
    → visit nodes (length ws) start ≡ ws
unfolding visit
visit_lem nodes start prev [] c = refl
visit_lem nodes start prev (x ∷ ws) c =
    ap (visit nodes (length (x ∷ ws))) c.0
    ∙ ap (◌∷◌ x) (visit_lem nodes (nodes x).next (some x) ws c.3)
