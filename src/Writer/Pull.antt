-- ===== src/Writer/Pull.antt =====
-- What pull hands over to the batch of the worker.
use p.Prelude.{
  ℕ, zero, suc, ◌≤◌, ◌≡◌, refl, sym, ap, ◌∙◌, true, false, Option, none, some, List, [], ◌∷◌, ◌++◌,
  ◌==◌, length, arith,
}
use mathlib.Core.Path.{subst}
use mathlib.Core.List.{append_assoc, append-nil}
use p.Kit.{Lst}
use p.Writer.{Fragment, Writer, move_all, hand_over, pull}
use p.Writer.Fragments.{bodies}

pub bodies-append_list : (bs cs : List Fragment) → bodies (bs ++ cs) ≡ bodies bs ++ bodies cs
bodies-append_list [] cs = refl
bodies-append_list (b ∷ bs) cs =
    ap (◌++◌ b.body) (bodies-append_list bs cs) ∙ sym (append_assoc b.body (bodies bs) (bodies cs))

abbrev pub tail_of : Option Fragment → List Fragment
tail_of none = []
tail_of (some b) = b ∷ []

-- The buffers of a writer, in the order in which they were filled.
abbrev pub chain_of : Writer → List Fragment
chain_of w = w.fragments ++ tail_of w.buffer

-- The batch and the writer after the writer's buffers were handed over.
abbrev pub IsPulled : List Fragment → Writer → List Fragment × Writer → Type 0
IsPulled io_data w r = (r.0 ≡ io_data ++ chain_of w) × (r.1.fragments ≡ []) × (r.1.buffer ≡ none)

module _ (K : Lst) where
  pub move_all_lem :
      {A : Type 0} (fuel : ℕ) (from to : List A)
      → length from ≤ fuel
      → move_all K fuel from to ≡ ([], to ++ from)
  unfolding move_all
  move_all_lem zero [] to h = ap (λ l. ([], l)) (sym (append-nil to))
  move_all_lem zero (b ∷ from) to h = absurd (omega arith)
  move_all_lem {A} (suc fuel) [] to h =
      let empty : (K.size {A = A} [] == 0) ≡ true = ground (arith, K.size_counts {A = A} []) in
      rw empty (ap (λ l. ([], l)) (sym (append-nil to)))
  move_all_lem (suc fuel) (b ∷ from) to h =
      let some_left : (K.size (b ∷ from) == 0) ≡ false = ground (arith, K.size_counts (b ∷ from)) in
      rw some_left (
        rw (K.pull_first_takes from b) (
          move_all_lem fuel from (K.push_last to b) (omega arith)
          ∙ ap (λ l. ([], l ++ from)) (K.push_last_appends to b)
          ∙ ap (λ l. ([], l)) (append_assoc to (b ∷ []) from)))

  pulled :
      (io_data : List Fragment) (w : Writer) (o : Option Fragment)
      → w.buffer ≡ o
      → IsPulled io_data w (hand_over K w ([], io_data ++ w.fragments) o)
  unfolding hand_over
  pulled io_data w none e = (
    ap (◌++◌ io_data) (sym (append-nil w.fragments) ∙ ap (λ o. w.fragments ++ tail_of o) (sym e)),
    refl,
    e,
  )
  pulled io_data w (some b) e = (
    K.push_last_appends (io_data ++ w.fragments) b
        ∙ append_assoc io_data w.fragments (b ∷ [])
        ∙ ap (λ o. io_data ++ (w.fragments ++ tail_of o)) (sym e),
    refl,
    refl,
  )

  -- pull appends every buffer of the writer, unchanged, to those that the batch holds, the
  -- finished ones in their order and then the one in progress, and leaves the writer without a
  -- buffer.
  pub pull-IsPulled : (io_data : List Fragment) (w : Writer) → IsPulled io_data w (pull K io_data w)
  unfolding pull
  pull-IsPulled io_data w =
      subst (λ m. IsPulled io_data w (hand_over K w m w.buffer))
        (sym (
          move_all_lem (K.size w.fragments) w.fragments io_data
            (omega (arith, K.size_counts w.fragments))))
        (pulled io_data w w.buffer refl)

  -- Between two records, where no buffer is in progress.
  pub pull_finished :
      (io_data : List Fragment) (w : Writer)
      → w.buffer ≡ none
      → pull K io_data w ≡ (io_data ++ w.fragments, record w { fragments = [] })
  unfolding pull hand_over
  pull_finished io_data w e =
      ap (hand_over K w (move_all K (K.size w.fragments) w.fragments io_data)) e
      ∙ ap (λ m. hand_over K w m none)
          (move_all_lem (K.size w.fragments) w.fragments io_data
            (omega (arith, K.size_counts w.fragments)))
