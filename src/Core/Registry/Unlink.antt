-- ===== src/Core/Registry/Unlink.antt =====
-- What unregister_writer of engine/p8_core.cpp leaves of the doubly linked list of the writers.
use p.Prelude.{
  ℕ, suc, ◌+◌, ◌-◌, ◌%◌, ◌<◌, ◌≡◌, refl, sym, ap, ◌∙◌, Bool, true, false, not, Option, none, some,
  List, [], ◌∷◌, ◌==◌, if◌then◌else◌, arith, length, if_cases,
}
use mathlib.Core.Path.{subst}
use p.Budget.{word}
use p.Core.Registry.{Links, Registry, set_next, head_after, unregister_writer}
use p.Core.Registry.Chain.{
  has, without, points_to, Chain, IsRegistry, set_next-links, set_prev-links,
}

-- What unregister_writer leaves in the nodes of the other writers.
abbrev IsUnlinked : (ℕ → Links) → (ℕ → Links) → ℕ → Type 0
IsUnlinked nodes new w =
    (a : ℕ)
    → (a == w) ≡ false
    → ((new a).next ≡ (if points_to (nodes w).prev a then (nodes w).next else (nodes a).next))
      × ((new a).prev ≡ (if points_to (nodes w).next a then (nodes w).prev else (nodes a).prev))

unregister_writer-IsUnlinked :
    (r : Registry) (w : ℕ) → IsUnlinked r.nodes (unregister_writer w r).nodes w
unfolding unregister_writer
unregister_writer-IsUnlinked r w a other =
    let old = r.nodes w in
    let nodes = set_next old.prev old.next r.nodes in
    let at_a = set_next-links r.nodes old.prev old.next a in
    let at_w = set_next-links r.nodes old.prev old.next w in
    let then_a = set_prev-links nodes (nodes w).next (nodes w).prev a in
    let next_read : (nodes w).next ≡ old.next = ground (arith, at_w.0) in
    (
      ground (arith, then_a.1, at_a.0),
      ground (arith, then_a.0, at_a.1, at_w.1, next_read, ap (λ o. points_to o a) next_read),
    )

-- The links of the neighbours.
next_out :
    (nodes : ℕ → Links) (w x : ℕ) (start prev : Option ℕ) (ws : List ℕ)
    → Chain nodes start prev ws
    → has w ws ≡ true
    → has x ws ≡ false
    → points_to (nodes w).next x ≡ false
next_out nodes w x start prev [] c here out = absurd (cc here)
next_out nodes w x start prev (y ∷ []) c here out = ground arith
next_out nodes w x start prev (y ∷ z ∷ ws) c here out =
    ground (arith, next_out nodes w x (nodes y).next (some y) (z ∷ ws))

prev_out :
    (nodes : ℕ → Links) (w x y : ℕ) (start : Option ℕ) (ws : List ℕ)
    → Chain nodes start (some y) ws
    → has w ws ≡ true
    → has x (y ∷ ws) ≡ false
    → points_to (nodes w).prev x ≡ false
prev_out nodes w x y start [] c here out = absurd (cc here)
prev_out nodes w x y start (z ∷ ws) c here out =
    ground (arith, prev_out nodes w x z (nodes z).next ws)

prev_is :
    (nodes : ℕ → Links) (w x : ℕ) (start : Option ℕ) (ws : List ℕ)
    → Chain nodes start (some x) ws
    → has w ws ≡ true
    → has x ws ≡ false
    → points_to (nodes w).prev x ≡ points_to start w
prev_is nodes w x start [] c here out = absurd (cc here)
prev_is nodes w x start (y ∷ ws) c here out = ground (arith, prev_out nodes w x y (nodes y).next ws)

has-without : (a w : ℕ) (ws : List ℕ) → has a ws ≡ false → has a (without w ws) ≡ false
has-without a w [] out = refl
has-without a w (x ∷ ws) out = ground (arith, has-without a w ws)

-- A neighbour of the writer that leaves, or none, is not among the others.
abbrev outside : Option ℕ → List ℕ → Bool
outside none ws = true
outside (some a) ws = not (has a ws)

outside_cons :
    (o : Option ℕ) (x : ℕ) (ws : List ℕ)
    → outside o (x ∷ ws) ≡ true
    → (points_to o x ≡ false) × (outside o ws ≡ true)
outside_cons none x ws out = (refl, refl)
outside_cons (some a) x ws out = (ground arith, ground arith)

module _ (nodes new : ℕ → Links) (w : ℕ) (unlinked : IsUnlinked nodes new w) where
  Chain-kept :
      (start prev : Option ℕ) (ws : List ℕ)
      → Chain nodes start prev ws
      → has w ws ≡ false
      → outside (nodes w).prev ws ≡ true
      → outside (nodes w).next ws ≡ true
      → Chain new start prev ws
  Chain-kept start prev [] c out no_prev no_next = c
  Chain-kept start prev (x ∷ ws) c out no_prev no_next =
      let (apart, rest) = outside_cons (nodes w).prev x ws no_prev in
      let (behind, others) = outside_cons (nodes w).next x ws no_next in
      let (next, prev_of) = unlinked x (ground arith) in
      (
        c.0,
        c.1,
        ground (arith, prev_of, behind, c.2),
        subst (λ n. Chain new n (some x) ws) (sym (ground (arith, next, apart)))
            (Chain-kept (nodes x).next (some x) ws c.3 (ground arith) rest others),
      )

  Chain-joined :
      (ws : List ℕ)
      → Chain nodes (nodes w).next (some w) ws
      → has w ws ≡ false
      → outside (nodes w).prev ws ≡ true
      → Chain new (nodes w).next (nodes w).prev ws
  Chain-joined [] c out no_prev = c
  Chain-joined (x ∷ ws) c out no_prev =
      let (apart, rest) = outside_cons (nodes w).prev x ws no_prev in
      let (next, prev_of) = unlinked x (ground arith) in
      (
        c.0,
        c.1,
        ground (arith, prev_of, ap (λ o. points_to o x) c.0),
        subst (λ n. Chain new n (some x) ws) (sym (ground (arith, next, apart)))
            (Chain-kept (nodes x).next (some x) ws c.3 (ground arith) rest
              (ground (arith, ap (λ o. outside o ws) c.0))),
      )

  Chain-without :
      (start prev : Option ℕ) (ws : List ℕ)
      → Chain nodes start prev ws
      → has w ws ≡ true
      → outside prev ws ≡ true
      → Chain new (if points_to start w then (nodes w).next else start) prev (without w ws)
  Chain-without start prev [] c here no_prev = absurd (cc here)
  Chain-without start prev (x ∷ ws) c here no_prev =
      if_cases
        (λ (l : List ℕ). Chain new (if points_to start w then (nodes w).next else start) prev l)
        (w == x) _ _
        (λ found.
          let same : x ≡ w = ground (arith, found) in
          let d : Chain nodes start prev (w ∷ ws) =
            subst (λ y. Chain nodes start prev (y ∷ ws)) same c in
          subst (λ n. Chain new n prev ws) (sym (ground (arith, ap (λ o. points_to o w) d.0)))
            (subst (λ q. Chain new (nodes w).next q ws) d.2
              (Chain-joined ws d.3 d.1
                (ap (λ o. outside o ws) d.2 ∙ (outside_cons prev x ws no_prev).1))))
        (λ other.
          let within : has w ws ≡ true = ground (arith, other) in
          let (next, prev_of) = unlinked x (ground (arith, other)) in
          (
            ground (arith, other, ap (λ o. points_to o w) c.0, c.0),
            has-without x w ws c.1,
            ground
                (arith, prev_of, next_out nodes w x (nodes x).next (some x) ws c.3 within c.1, c.2),
            subst (λ n. Chain new n (some x) (without w ws))
                (sym (ground (arith, next, prev_is nodes w x (nodes x).next ws c.3 within c.1)))
                (Chain-without (nodes x).next (some x) ws c.3 within (ground (arith, c.1))),
          ))

length-without : (w : ℕ) (ws : List ℕ) → has w ws ≡ true → suc (length (without w ws)) ≡ length ws
length-without w [] here = absurd (cc here)
length-without w (x ∷ ws) here = ground (arith, length-without w ws)

prev_some :
    (nodes : ℕ → Links) (w y : ℕ) (next head start : Option ℕ) (ws : List ℕ)
    → Chain nodes start (some y) ws
    → has w ws ≡ true
    → head_after (nodes w).prev next head ≡ head
prev_some nodes w y next head start [] c here = absurd (cc here)
prev_some nodes w y next head start (z ∷ ws) c here =
    ground (arith, prev_some nodes w z next head (nodes z).next ws)

-- Only the first writer of a registry is taken from its head.
head_is :
    (nodes : ℕ → Links) (w : ℕ) (next start : Option ℕ) (ws : List ℕ)
    → Chain nodes start none ws
    → has w ws ≡ true
    → (if points_to start w then next else start) ≡ head_after (nodes w).prev next start
head_is nodes w next start [] c here = absurd (cc here)
head_is nodes w next start (x ∷ ws) c here =
    ground (arith, prev_some nodes w x next start (nodes x).next ws)

fewer : (n m : ℕ) → n ≡ suc m → n < word → (n + (word - 1)) % word ≡ m
fewer n m e small = omega arith

pub unregister_writer-IsRegistry :
    (r : Registry) (w : ℕ) (ws : List ℕ)
    → IsRegistry r ws
    → has w ws ≡ true
    → IsRegistry (unregister_writer w r) (without w ws)
unfolding unregister_writer
unregister_writer-IsRegistry r w ws h here = record {
  chain =
      let new = unregister_writer w r in
      subst (λ n. Chain new.nodes n none (without w ws))
        (head_is r.nodes w (r.nodes w).next r.head ws h.chain here)
        (Chain-without r.nodes new.nodes w (unregister_writer-IsUnlinked r w) r.head none ws h.chain
          here refl);
  count =
      fewer r.count (length (without w ws)) (h.count ∙ sym (length-without w ws here))
        (omega (arith, h.count, h.small));
  small = omega (arith, length-without w ws here, h.small);
}
