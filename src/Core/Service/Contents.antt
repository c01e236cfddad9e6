-- ===== src/Core/Service/Contents.antt =====
-- The service buffers as the entries that they hold.
use p.Prelude.{
  ℕ, ◌+◌, ◌≤◌, ◌≡◌, refl, sym, ap, ◌∙◌, Option, none, some, List, [], ◌∷◌, ◌++◌, length, take,
  replicate, All, All-append, arith, length-take,
}
use mathlib.Core.List.{append_assoc, append-nil}
use p.Sink.{SvcBuf}
use p.Core.Service.{buffer_size, overwrite}
use p.Core.Service.Entries.{
  IsEntry, concat, read_entries, read_entries-concat, length-concat_le, concat-append, padded_to,
}
use p.Core.Service.Memory.{length-overwrite, take-overwrite}

-- A buffer of the pool whose used bytes are these entries.
abbrev pub Filled : SvcBuf → List (List ℕ) → Type 0
Filled b es =
    (length b.memory ≡ buffer_size)
    × (b.used ≤ buffer_size)
    × (take b.used b.memory ≡ concat es)
    × All IsEntry es

-- The buffers hold these entries, in order.
abbrev pub Holds : List SvcBuf → List (List ℕ) → Type 0
Holds [] es = es ≡ []
Holds (b ∷ bs) es =
    (first : List (List ℕ)) × (rest : List (List ℕ)) × (es ≡ first ++ rest)
    × Filled b first
    × Holds bs rest

-- The reader of all the buffers.
abbrev pub append_to : Option (List (List ℕ)) → Option (List (List ℕ)) → Option (List (List ℕ))
append_to none r = none
append_to (some es) none = none
append_to (some es) (some fs) = some (es ++ fs)

unfoldable pub read_buffers : List SvcBuf → Option (List (List ℕ))
unfolding read_entries
read_buffers [] = some []
read_buffers (b ∷ bs) = append_to (read_entries b.used (take b.used b.memory)) (read_buffers bs)

read_buffer :
    (b : SvcBuf) (es : List (List ℕ))
    → Filled b es
    → read_entries b.used (take b.used b.memory) ≡ some es
read_buffer b es (size, within, bytes, entries) =
    ap (read_entries b.used) bytes
    ∙ read_entries-concat b.used es
        (omega (arith, length-concat_le es entries, ap length bytes, length-take b.used b.memory))
        entries

-- Whatever entries the service buffers hold, a reader that walks every buffer by the sizes in the
-- entries' headers finds exactly these, in order.
pub read_buffers_lem :
    (bs : List SvcBuf) (es : List (List ℕ)) → Holds bs es → read_buffers bs ≡ some es
unfolding read_buffers
read_buffers_lem [] es h = ap some (sym h)
read_buffers_lem (b ∷ bs) es (first, rest, split, filled, h) =
    ap (λ r. append_to r (read_buffers bs)) (read_buffer b first filled)
    ∙ ap (append_to (some first)) (read_buffers_lem bs rest h)
    ∙ ap some (sym split)

-- The last buffer apart from those before it.
pub Holds-last :
    (l : List SvcBuf) (b : SvcBuf) (es : List (List ℕ))
    → Holds (l ++ b ∷ []) es
    → (before : List (List ℕ)) × (last : List (List ℕ)) × (es ≡ before ++ last)
      × Holds l before
      × Filled b last
Holds-last [] b es (first, rest, split, filled, none_left) =
    ([], first, split ∙ ap (◌++◌ first) none_left ∙ append-nil first, refl, filled)
Holds-last (a ∷ l) b es (first, rest, split, filled, h) =
    let (before, last, e, hl, hb) = Holds-last l b rest h in
    (
      first ++ before,
      last,
      split ∙ ap (◌++◌ first) e ∙ sym (append_assoc first before last),
      (first, before, refl, filled, hl),
      hb,
    )

pub Holds-append :
    (l : List SvcBuf) (b : SvcBuf) (before last : List (List ℕ))
    → Holds l before
    → Filled b last
    → Holds (l ++ b ∷ []) (before ++ last)
Holds-append [] b before last h filled =
    (last, [], ap (λ l. l ++ last) h ∙ sym (append-nil last), filled, refl)
Holds-append (a ∷ l) b before last (first, rest, split, hf, h) filled = (
  first,
  rest ++ last,
  ap (λ l. l ++ last) split ∙ append_assoc first rest last,
  hf,
  Holds-append l b rest last h filled,
)

-- The buffer after an entry is written to its next place.
abbrev pub filled_with : ℕ → List ℕ → SvcBuf → SvcBuf
filled_with padded bytes b = record {
  memory = overwrite b.used bytes (overwrite b.used (replicate padded 0) b.memory);
  used = b.used + padded;
}

pub Filled-filled_with :
    (padded : ℕ) (bytes : List ℕ) (b : SvcBuf) (es : List (List ℕ))
    → Filled b es
    → b.used + padded ≤ buffer_size
    → length bytes ≤ padded
    → IsEntry (padded_to padded bytes)
    → Filled (filled_with padded bytes b) (es ++ padded_to padded bytes ∷ [])
Filled-filled_with padded bytes b es (size, within, held, entries) room few entry = (
  length-overwrite b.used bytes (overwrite b.used (replicate padded 0) b.memory)
      ∙ length-overwrite b.used (replicate padded 0) b.memory
      ∙ size,
  room,
  take-overwrite b.used padded bytes b.memory (omega arith) few
      ∙ ap (λ l. l ++ padded_to padded bytes) held
      ∙ sym (concat-append es (padded_to padded bytes)),
  All-append IsEntry es (padded_to padded bytes ∷ []) entries (entry, tt),
)

-- A buffer fresh from the pool.
pub Filled-fresh :
    (memory : List ℕ)
    → length memory ≡ buffer_size
    → Filled (record { memory = memory; used = 0 }) []
Filled-fresh memory h = (h, omega arith, refl, tt)
