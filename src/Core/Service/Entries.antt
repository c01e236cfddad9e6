-- ===== src/Core/Service/Entries.antt =====
-- The entries of a service buffer as its reader walks them: each header's mu_size leads to the next.
use p.Prelude.{
  ℕ, zero, suc, ◌+◌, ◌-◌, ◌*◌, ◌/◌, ◌%◌, ◌^◌, ◌≤◌, ◌<◌, ◌≡◌, refl, sym, ap, ◌∙◌, true, ◌&&◌, Option,
  none, some, List, [], ◌∷◌, ◌++◌, leb, if◌then◌else◌, length, take, drop, replicate, All, arith,
  length-append, length-replicate, take-append_length, drop-append_length,
}
use mathlib.Core.List.{append_assoc}
use p.Core.Service.{align_up_8, entry_header}

-- The mu_size of the entry at the front.
abbrev pub size_field : List ℕ → Option ℕ
size_field (packet ∷ type ∷ low ∷ high ∷ rest) = some (low + 256 * high)
size_field bytes = none

-- An entry of a packet of its own length, 8-aligned.
abbrev pub IsEntry : List ℕ → Type 0
IsEntry e = (size_field e ≡ some (length e)) × (length e % 8 ≡ 0)

abbrev pub concat : List (List ℕ) → List ℕ
concat [] = []
concat (e ∷ es) = e ++ concat es

-- The reader: none where an entry does not end within the bytes.
abbrev pub cut : List ℕ → Option ℕ → Option (List ℕ × List ℕ)
cut bytes none = none
cut bytes (some n) =
    if (leb 4 n) && leb n (length bytes) then some (take n bytes, drop n bytes) else none

abbrev pub cons_to : List ℕ → Option (List (List ℕ)) → Option (List (List ℕ))
cons_to e none = none
cons_to e (some es) = some (e ∷ es)

unfoldable pub read_entries : ℕ → List ℕ → Option (List (List ℕ))
read_entries fuel [] = some []
read_entries zero (b ∷ bytes) = none
read_entries (suc fuel) (b ∷ bytes) = elim (cut (b ∷ bytes) (size_field (b ∷ bytes))) [
  | none ↦ none
  | some c ↦ cons_to c.0 (read_entries fuel c.1)
]

size_field-append :
    (e bytes : List ℕ) (n : ℕ)
    → size_field e ≡ some n
    → (size_field (e ++ bytes) ≡ some n) × (4 ≤ length e)
size_field-append [] bytes n h = absurd (ground (arith, h))
size_field-append (a ∷ []) bytes n h = absurd (ground (arith, h))
size_field-append (a ∷ b ∷ []) bytes n h = absurd (ground (arith, h))
size_field-append (a ∷ b ∷ c ∷ []) bytes n h = absurd (ground (arith, h))
size_field-append (a ∷ b ∷ c ∷ d ∷ e) bytes n h = (h, omega arith)

read_step :
    (fuel b : ℕ) (bytes : List ℕ) (c : List ℕ × List ℕ)
    → cut (b ∷ bytes) (size_field (b ∷ bytes)) ≡ some c
    → read_entries (suc fuel) (b ∷ bytes) ≡ cons_to c.0 (read_entries fuel c.1)
unfolding read_entries
read_step fuel b bytes c h =
    ap (λ o. elim o [ none ↦ none | some c ↦ cons_to c.0 (read_entries fuel c.1) ]) h

cut_front : (e bytes : List ℕ) → 4 ≤ length e → cut (e ++ bytes) (some (length e)) ≡ some (e, bytes)
cut_front e bytes h =
    let four : leb 4 (length e) ≡ true = ground arith in
    let within : leb (length e) (length (e ++ bytes)) ≡ true =
      ground (arith, length-append e bytes) in
    rw (four, within, take-append_length e bytes, drop-append_length e bytes) refl

read_cons :
    (fuel : ℕ) (e bytes : List ℕ)
    → IsEntry e
    → read_entries (suc fuel) (e ++ bytes) ≡ cons_to e (read_entries fuel bytes)
read_cons fuel [] bytes h = absurd (ground (arith, h.0))
read_cons fuel (a ∷ e) bytes h =
    let head = size_field-append (a ∷ e) bytes (length (a ∷ e)) h.0 in
    read_step fuel a (e ++ bytes) (a ∷ e, bytes)
      (ap (cut (a ∷ e ++ bytes)) head.0 ∙ cut_front (a ∷ e) bytes head.1)

-- The reader finds the entries of their concatenation again, in order, with as much fuel as there
-- are entries.
pub read_entries-concat :
    (fuel : ℕ) (es : List (List ℕ))
    → length es ≤ fuel
    → All IsEntry es
    → read_entries fuel (concat es) ≡ some es
unfolding read_entries
read_entries-concat zero [] few h = refl
read_entries-concat (suc fuel) [] few h = refl
read_entries-concat zero (e ∷ es) few h = absurd (omega arith)
read_entries-concat (suc fuel) (e ∷ es) few h =
    read_cons fuel e (concat es) h.0
    ∙ ap (cons_to e) (read_entries-concat fuel es (omega arith) h.1)

-- There are no more entries than bytes.
pub length-concat_le : (es : List (List ℕ)) → All IsEntry es → length es ≤ length (concat es)
length-concat_le [] h = omega arith
length-concat_le (e ∷ es) h = omega (
  arith,
  length-append e (concat es),
  (size_field-append e [] (length e) h.0.0).1,
  length-concat_le es h.1,
)

pub concat-append : (es : List (List ℕ)) (e : List ℕ) → concat (es ++ e ∷ []) ≡ concat es ++ e
concat-append [] e = mathlib.Core.List.append-nil e
concat-append (d ∷ es) e = ap (◌++◌ d) (concat-append es e) ∙ sym (append_assoc d (concat es) e)

pub length-concat : (es : List (List ℕ)) → All IsEntry es → length (concat es) % 8 ≡ 0
length-concat [] h = refl
length-concat (e ∷ es) h = omega (arith, length-append e (concat es), h.0.1, length-concat es h.1)

pub align_up_8_lem : (n : ℕ) → (n ≤ align_up_8 n) × (align_up_8 n < n + 8) × (align_up_8 n % 8 ≡ 0)
align_up_8_lem n = (omega arith, omega arith, omega arith)

-- Bytes followed by zeros up to a size.
abbrev pub padded_to : ℕ → List ℕ → List ℕ
padded_to size bytes = bytes ++ replicate (size - length bytes) 0

pub length-padded_to :
    (size : ℕ) (bytes : List ℕ) → length bytes ≤ size → length (padded_to size bytes) ≡ size
length-padded_to size bytes h = omega (
  arith,
  length-append bytes (replicate (size - length bytes) 0),
  length-replicate {A = ℕ} (size - length bytes) 0,
)

pub padded_to-IsEntry :
    (type padded : ℕ) (body : List ℕ)
    → 4 + length body ≤ padded
    → padded % 8 ≡ 0
    → padded < 2 ^ 16
    → IsEntry (padded_to padded (entry_header type padded ++ body))
padded_to-IsEntry type padded body h aligned small =
    let whole = length-padded_to padded (entry_header type padded ++ body) (omega arith) in
    let size : (padded % 2 ^ 16) % 256 + 256 * ((padded % 2 ^ 16) / 256 % 256) ≡ padded =
      omega arith in
    (ap some (size ∙ sym whole), ap (λ n. n % 8) whole ∙ aligned)
