-- ===== src/Sink/File/Accounting.antt =====
-- The counters of the file sink, batch by batch.
use p.Prelude.{
  ℕ, zero, suc, ◌+◌, ◌%◌, ◌≤◌, ◌<◌, ◌≡◌, refl, sym, ap, ◌∙◌, ◌⊎◌, inl, inr, min, Bool, true, false,
  Option, none, some, List, [], ◌∷◌, ◌++◌, ◌==◌, if◌then◌else◌, length, take, drop, arith,
  length-drop, Bool-cases,
}
use mathlib.Core.Path.{subst}
use p.Kit.{Iovec, total_size, FileApi}
use p.Budget.{word}
use p.Sink.File.{Counters, account, max_iov, chunk_size, write_loop, write_entries}

-- The bytes counted so far.
abbrev pub counted : Counters → ℕ
counted c = c.bytes_written + c.bytes_dropped

total_size-append : (vs ws : List Iovec) → total_size (vs ++ ws) ≡ total_size vs + total_size ws
total_size-append [] ws = omega arith
total_size-append (v ∷ vs) ws = omega (arith, total_size-append vs ws)

pub total_size-split :
    (n : ℕ) (vs : List Iovec) → total_size (take n vs) + total_size (drop n vs) ≡ total_size vs
total_size-split zero vs = omega arith
total_size-split (suc n) [] = omega arith
total_size-split (suc n) (v ∷ vs) = omega (arith, total_size-split n vs)

pub chunk_size_lem :
    (vs : List Iovec) (sum : ℕ)
    → sum + total_size vs < word
    → chunk_size vs sum ≡ sum + total_size vs
unfolding chunk_size
chunk_size_lem [] sum h = omega arith
chunk_size_lem (v ∷ vs) sum h = omega (arith, chunk_size_lem vs ((sum + v.size) % word))

-- A chunk adds its size to the bytes counted.
pub account-counted :
    (size written : ℕ) (c : Counters)
    → written ≤ size
    → counted c + size < word
    → (counted (account size written c) ≡ counted c + size)
      × (c.bytes_dropped + size ≡ (account size written c).bytes_dropped + written)
unfolding account
account-counted size written c h room = ground arith

-- The call has returned ok' with counters c': it added `total` to the bytes counted, and returned
-- true exactly if it dropped none and ok was true.
abbrev pub Counts : ℕ → Bool → Counters → Bool → Counters → Type 0
Counts total ok c ok' c' =
    (counted c' ≡ counted c + total)
    × (c.bytes_dropped ≤ c'.bytes_dropped)
    × ((ok' ≡ true) → (ok ≡ true) × (c'.bytes_dropped ≡ c.bytes_dropped))
    × ((ok' ≡ false) → (ok ≡ false) ⊎ (c.bytes_dropped < c'.bytes_dropped))

abbrev pub Sent {ℓ} : {H : Type ℓ} → ℕ → Bool → Counters → Option (Bool × H × Counters) → Type 0
Sent total ok c none = ⊥
Sent total ok c (some (ok', f, c')) = Counts total ok c ok' c'

Counts-step :
    (size written rest total : ℕ) (ok ok' : Bool) (c c' : Counters)
    → size + rest ≡ total
    → written ≤ size
    → counted c + size < word
    → Counts rest (if written == size then ok else false) (account size written c) ok' c'
    → Counts total ok c ok' c'
Counts-step size written rest total ok ok' c c' sum h room k =
    let a = account-counted size written c h room in
    elim (Bool-cases (written == size)) [
      | inl full ↦
          (omega arith, omega arith, λ e. ground (arith, k.2 e), λ e. ground (arith, k.3 e))
      | inr short ↦ (omega arith, omega arith, λ e. ground (arith, k.2 e), λ e. ground arith)
    ]

Sent-step {ℓ} :
    {H : Type ℓ} (size written rest total : ℕ) (ok : Bool) (c : Counters)
    (r : Option (Bool × H × Counters))
    → size + rest ≡ total
    → written ≤ size
    → counted c + size < word
    → Sent rest (if written == size then ok else false) (account size written c) r
    → Sent total ok c r
Sent-step size written rest total ok c none sum h room k = k
Sent-step size written rest total ok c (some (ok', f, c')) sum h room k =
    Counts-step size written rest total ok ok' c c' sum h room k

-- The call has returned, and its batch is counted as written, or some of it as dropped.
abbrev pub IsAccounted {ℓ} : {H : Type ℓ} → ℕ → Counters → Option (Bool × H × Counters) → Type 0
IsAccounted total c none = ⊥
IsAccounted total c (some (ok, f, c')) =
    (counted c' ≡ counted c + total)
    × (((ok ≡ true) × (c'.bytes_dropped ≡ c.bytes_dropped))
        ⊎ ((ok ≡ false) × (c.bytes_dropped < c'.bytes_dropped)))

Sent-IsAccounted {ℓ} :
    {H : Type ℓ} (total : ℕ) (c : Counters) (r : Option (Bool × H × Counters))
    → Sent total true c r
    → IsAccounted total c r
Sent-IsAccounted total c none h = h
Sent-IsAccounted total c (some (true, f, c')) h = (h.0, inl (refl, (h.2 refl).1))
Sent-IsAccounted total c (some (false, f, c')) h = (
  h.0,
  inr (refl, elim (h.3 refl) [ inl wrong ↦ absurd (ground (arith, wrong)) | inr less ↦ less ]),
)

pub length-drop_lt :
    (v : Iovec) (vs : List Iovec) (fuel : ℕ)
    → length (v ∷ vs) ≤ suc fuel
    → length (drop (min max_iov (length (v ∷ vs))) (v ∷ vs)) ≤ fuel
length-drop_lt v vs fuel h = omega (arith, length-drop (min max_iov (length (v ∷ vs))) (v ∷ vs))

pub write_loop_end :
    (F : FileApi) (fuel : ℕ) (f : F.Handle) (ok : Bool) (c : Counters)
    → write_loop F fuel f [] ok c ≡ some (ok, f, c)
unfolding write_loop
write_loop_end F zero f ok c = refl
write_loop_end F (suc fuel) f ok c = refl

module _ (F : FileApi) where
  -- One round of the loop, at the size of its chunk.
  pub write_loop_round :
      (fuel : ℕ) (f : F.Handle) (v : Iovec) (vs : List Iovec) (ok : Bool) (c : Counters)
      → let chunk = take (min max_iov (length (v ∷ vs))) (v ∷ vs) in
        let sent = F.write_v f chunk in
        (size : ℕ)
        → chunk_size chunk 0 ≡ size
        → write_loop F (suc fuel) f (v ∷ vs) ok c
          ≡ write_loop F fuel sent.1
              (drop (min max_iov (length (v ∷ vs))) (v ∷ vs))
              (if sent.0 == size then ok else false)
              (account size sent.0 c)
  unfolding write_loop
  write_loop_round fuel f v vs ok c size e =
      let chunk = take (min max_iov (length (v ∷ vs))) (v ∷ vs) in
      let sent = F.write_v f chunk in
      ap
        (λ z.
          write_loop F fuel sent.1 (drop (min max_iov (length (v ∷ vs))) (v ∷ vs))
            (if sent.0 == z then ok else false) (account z sent.0 c))
        e

  pub write_loop-Sent :
      (fuel : ℕ) (f : F.Handle) (vs : List Iovec) (ok : Bool) (c : Counters)
      → length vs ≤ fuel
      → counted c + total_size vs < word
      → Sent (total_size vs) ok c (write_loop F fuel f vs ok c)
  write_loop-Sent fuel f [] ok c h room =
      rw (write_loop_end F fuel f ok c) (omega arith, omega arith, λ e. (e, refl), λ e. inl e)
  write_loop-Sent zero f (v ∷ vs) ok c h room = absurd (omega arith)
  write_loop-Sent (suc fuel) f (v ∷ vs) ok c h room =
      let n = min max_iov (length (v ∷ vs)) in
      let chunk = take n (v ∷ vs) in
      let rest = drop n (v ∷ vs) in
      let split = total_size-split n (v ∷ vs) in
      let sent = F.write_v f chunk in
      let limit = F.write_v_limit f chunk in
      let size = chunk_size_lem chunk 0 (omega (arith, split)) in
      let counted_so_far =
        account-counted (total_size chunk) sent.0 c limit (omega (arith, split)) in
      subst (λ r. Sent (total_size (v ∷ vs)) ok c r)
        (sym (write_loop_round fuel f v vs ok c (total_size chunk) (size ∙ omega arith)))
        (Sent-step (total_size chunk) sent.0 (total_size rest) (total_size (v ∷ vs)) ok c _ split
          limit (omega (arith, split))
          (write_loop-Sent fuel sent.1 rest (if sent.0 == total_size chunk then ok else false)
            (account (total_size chunk) sent.0 c) (length-drop_lt v vs fuel h)
            (omega (arith, split, counted_so_far.0))))

  write_entries-Sent :
      (f : F.Handle) (vs : List Iovec) (c : Counters)
      → counted c + total_size vs < word
      → Sent (total_size vs) true c (write_entries F f vs (total_size vs) c)
  unfolding write_entries
  write_entries-Sent f vs c room = elim (Bool-cases (total_size vs == 0)) [
    | inl nothing ↦ rw nothing (ground arith, omega arith, λ e. (refl, refl), λ e. cc)
    | inr something ↦ rw something (elim (Bool-cases (F.is_open f)) [
      | inl opened ↦ rw opened (write_loop-Sent (length vs) f vs true c (omega arith) room)
      | inr closed ↦ rw closed (ground arith, ground arith, λ e. cc, λ e. inr (ground arith))
    ])
  ]

  -- A batch whose total is given right is accounted for to the last byte on every branch, partial
  -- writes included: the call ends, the bytes written and dropped grow by the total, if the
  -- counters have room for it, and it returns true exactly if it dropped none.
  pub write_entries-IsAccounted :
      (f : F.Handle) (vs : List Iovec) (c : Counters)
      → counted c + total_size vs < word
      → IsAccounted (total_size vs) c (write_entries F f vs (total_size vs) c)
  write_entries-IsAccounted f vs c room =
      Sent-IsAccounted (total_size vs) c _ (write_entries-Sent f vs c room)
