-- ===== src/Core/Registry.antt =====
-- engine/p8_core.cpp, register_writer and unregister_writer: the registry of the writers, a doubly linked
-- list through the nodes of the writers (mp_next_writer, mp_prev_writer in engine/p8_tls_writer.hpp),
-- and the loops over it.
pub mod Chain
pub mod Unlink
pub mod History
use p.Prelude.{
  ℕ, zero, suc, ◌+◌, ◌-◌, ◌%◌, ◌^◌, Option, none, some, List, [], ◌∷◌, ◌==◌, if◌then◌else◌,
}
use p.Budget.{word}

pub record Links : Type 0 where
  pub next : Option ℕ
  pub prev : Option ℕ

-- `nodes` is the memory of the writers, by address.
pub record Registry : Type 0 where
  pub nodes : ℕ → Links
  pub head : Option ℕ
  pub count : ℕ

abbrev pub put : (ℕ → Links) → ℕ → Links → ℕ → Links
put nodes a v b = if b == a then v else nodes b

-- A registry without writers.
abbrev pub no_writers : (ℕ → Links) → Registry
no_writers nodes = record { nodes = nodes; head = none; count = 0 }

-- `if(p) p->mp_next_writer = next`
abbrev pub set_next : Option ℕ → Option ℕ → (ℕ → Links) → ℕ → Links
set_next none next nodes = nodes
set_next (some p) next nodes = put nodes p (record (nodes p) { next = next })

-- `if(n) n->mp_prev_writer = prev`
abbrev pub set_prev : Option ℕ → Option ℕ → (ℕ → Links) → ℕ → Links
set_prev none prev nodes = nodes
set_prev (some n) prev nodes = put nodes n (record (nodes n) { prev = prev })

unfoldable pub register_writer : ℕ → Registry → Registry
register_writer w r = record {
  nodes = set_prev r.head (some w) (put r.nodes w (record { next = r.head; prev = none }));
  head = some w;
  count = (r.count + 1) % word;
}

-- `else mp_writers_head = ip_writer->mp_next_writer`
abbrev pub head_after : Option ℕ → Option ℕ → Option ℕ → Option ℕ
head_after none next head = next
head_after (some p) next head = head

-- The last two writes clear the node; before them, each link is read after the writes so far.
unfoldable pub unregister_writer : ℕ → Registry → Registry
unregister_writer w r =
    let old = r.nodes w in
    let nodes = set_next old.prev old.next r.nodes in
    let relinked = set_prev (nodes w).next (nodes w).prev nodes in
    record {
      nodes = put relinked w (record { next = none; prev = none });
      head = head_after old.prev old.next r.head;
      count = (r.count + (word - 1)) % word;
    }

-- The writers in the order in which a loop over the registry visits them; the fuel is their count.
unfoldable pub visit : (ℕ → Links) → ℕ → Option ℕ → List ℕ
visit nodes zero start = []
visit nodes (suc fuel) none = []
visit nodes (suc fuel) (some w) = w ∷ visit nodes fuel (nodes w).next
