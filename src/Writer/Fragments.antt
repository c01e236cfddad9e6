-- ===== src/Writer/Fragments.antt =====
-- What copy_fragmented leaves in the chain of a writer's buffers.
use p.Prelude.{
  ℕ, ◌+◌, ◌<◌, ◌≡◌, sym, ap, ◌∙◌, ◌⊎◌, inl, inr, Bool, true, false, Option, none, some, List, [],
  ◌∷◌, ◌++◌, length, take,
}
use mathlib.Core.List.{append_assoc, append-nil}
use p.Kit.{Lst}
use p.Writer.{Fragment, Writer, copy_fragmented}
use p.Writer.Trace.{body_of, IsWriting, stored, turned_over, Trace, Copied, copy_fragmented-Copied}

abbrev pub bodies : List Fragment → List ℕ
bodies [] = []
bodies (b ∷ bs) = b.body ++ bodies bs

-- The bytes of a writer, in the order in which they were written.
abbrev pub bytes : Writer → List ℕ
bytes w = bodies w.fragments ++ body_of w.buffer

pub bodies-append :
    (bs : List Fragment) (b : Fragment) → bodies (bs ++ b ∷ []) ≡ bodies bs ++ b.body
bodies-append [] b = append-nil b.body
bodies-append (a ∷ bs) b =
    ap (◌++◌ a.body) (bodies-append bs b) ∙ sym (append_assoc a.body (bodies bs) b.body)

-- What copying src made of w: the first k bytes are behind those of before, all of them on success.
abbrev pub IsCopied : List ℕ → ℕ → Writer → Option (Bool × Writer × ℕ × List Bool) → Type 0
IsCopied src written w none = ⊥
IsCopied src written w (some (ok, v, n, rest)) =
    (k : ℕ) × (n ≡ written + k)
    × (bytes v ≡ bytes w ++ take k src)
    × (((ok ≡ true) × (k ≡ length src)) ⊎ ((ok ≡ false) × (k < length src)))

bytes-stored :
    (v : Writer) (b : Fragment) (s : List ℕ)
    → v.buffer ≡ some b
    → bytes (stored v b s) ≡ bytes v ++ s
bytes-stored v b s e =
    sym (append_assoc (bodies v.fragments) b.body s)
    ∙ ap (λ o. (bodies v.fragments ++ body_of o) ++ s) (sym e)

bytes-turned_over :
    (v : Writer) (b f : Fragment) (o : Option Fragment) (used : ℕ)
    → v.buffer ≡ some b
    → f.body ≡ b.body
    → body_of o ≡ []
    → bytes (turned_over v f o used) ≡ bytes v
bytes-turned_over v b f o used e same fresh =
    ap (◌++◌ (bodies (v.fragments ++ f ∷ []))) fresh
    ∙ append-nil (bodies (v.fragments ++ f ∷ []))
    ∙ bodies-append v.fragments f
    ∙ ap (◌++◌ (bodies v.fragments)) same
    ∙ ap (λ o. bodies v.fragments ++ body_of o) (sym e)

bytes-Trace : (l : List ℕ) → Trace (λ s v. bytes v ≡ l ++ s)
bytes-Trace l = record {
  on_store = λ s t b v e held. bytes-stored v b t e ∙ ap (λ m. m ++ t) held ∙ append_assoc l s t;
  on_turn = λ s b f v o used e within same size fresh held.
      bytes-turned_over v b f o used e same fresh ∙ held;
}

Copied-IsCopied :
    (src : List ℕ) (w : Writer) (written : ℕ) (r : Option (Bool × Writer × ℕ × List Bool))
    → Copied (λ s v. bytes v ≡ bytes w ++ s) [] src written r
    → IsCopied src written w r
Copied-IsCopied src w written none c = c
Copied-IsCopied src w written (some (ok, v, n, rest)) (k, count, held, ends) = (
  k,
  count,
  held,
  elim ends [
    | inl (done, whole, going) ↦ inl (done, whole)
    | inr (failed, part, gone) ↦ inr (failed, part)
  ],
)

module _ (K : Lst) where
  -- A writer in the middle of a record, whose cursor stands within its buffer, loses no byte: the
  -- call of copy_fragmented ends, across however many buffers, and the bytes of the writer's chain
  -- are those of before followed by the first k bytes of the source, where k is what the count of
  -- written bytes grew by; it returns true exactly if these are all of them.
  pub copy_fragmented-IsCopied :
      (now : ℕ) (answers : List Bool) (src : List ℕ) (b : Fragment) (w : Writer) (written : ℕ)
      → IsWriting w b
      → IsCopied src written w (copy_fragmented K now answers src w written)
  copy_fragmented-IsCopied now answers src b w written writing = Copied-IsCopied src w written _ (
      copy_fragmented-Copied K (λ s v. bytes v ≡ bytes w ++ s) (bytes-Trace (bytes w)) now answers
        [] src b w written writing (sym (append-nil (bytes w))))
