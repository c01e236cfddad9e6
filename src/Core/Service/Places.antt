-- ===== src/Core/Service/Places.antt =====
-- Where svc_reserve finds the place of an entry, and what the buffers hold once it is written.
use p.Prelude.{
  ℕ, ◌+◌, ◌%◌, ◌≤◌, ◌<◌, ◌≡◌, refl, sym, ap, ◌∙◌, ◌⊎◌, inl, inr, true, false, Option, none, some,
  List, [], ◌∷◌, ◌++◌, ltb, ◌==◌, length, arith, Bool-cases, length-append,
}
use mathlib.Core.Path.{subst}
use mathlib.Core.List.{append_assoc, append-nil}
use p.Kit.{Lst}
use p.Budget.{word}
use p.Sink.{SvcBuf}
use p.Core.Service.{Svc, buffer_size, svc_acquire_new, svc_take, svc_make_room, svc_reserve, store}
use p.Core.Service.Entries.{IsEntry, padded_to}
use p.Core.Service.Contents.{
  Holds, Holds-last, Holds-append, filled_with, Filled-filled_with, Filled-fresh,
}

snoc-cases {ℓ} :
    {A : Type ℓ} (l : List A) → (l ≡ []) ⊎ ((before : List A) × (a : A) × (l ≡ before ++ a ∷ []))
snoc-cases [] = inl refl
snoc-cases (a ∷ l) = elim (snoc-cases l) [
  | inl e ↦ inr ([], a, ap (◌∷◌ a) e)
  | inr (before, b, e) ↦ inr (a ∷ before, b, ap (◌∷◌ a) e)
]

abbrev svc_of : List SvcBuf → ℕ → Svc
svc_of bs d = record { buffers = bs; dropped = d }

abbrev fresh : List ℕ → SvcBuf
fresh memory = record { memory = memory; used = 0 }

-- What a serialize function does with an entry's bytes: it reserves their place and stores them.
abbrev pub put : Lst → ℕ → List ℕ → Option (List ℕ) → Svc → Svc
put K padded bytes acquired s = let r = svc_reserve K padded acquired s in store K r.0 bytes r.1

-- The buffer that is acquired has the size of the pool's buffers.
abbrev pub IsAcquired : Option (List ℕ) → Type 0
IsAcquired none = Unit
IsAcquired (some memory) = length memory ≡ buffer_size

-- An entry went into the buffers that held es, or it was dropped and counted, for want of a buffer.
abbrev pub Took : Option (List ℕ) → List (List ℕ) → List ℕ → Svc → Svc → Type 0
Took acquired es e s t =
    (Holds t.buffers (es ++ e ∷ []) × (t.dropped ≡ s.dropped))
    ⊎ ((acquired ≡ none) × (t.buffers ≡ s.buffers) × (t.dropped ≡ (s.dropped + 1) % word))

module _ (K : Lst) where
  open K use {size, back}

  taken :
      (padded d : ℕ) (bytes : List ℕ) (l : List SvcBuf) (b : SvcBuf)
      → let r = svc_take K padded (svc_of (l ++ b ∷ []) d) (back (l ++ b ∷ [])) in
        store K r.0 bytes r.1 ≡ svc_of (l ++ filled_with padded bytes b ∷ []) d
  unfolding svc_take store
  taken padded d bytes l b =
      rw (K.back_last l b)
        (rw (K.set_back_last l b) (rw (K.back_last l) (rw (K.set_back_last l) refl)))

  fits :
      (padded d : ℕ) (acquired : Option (List ℕ)) (l : List SvcBuf) (b : SvcBuf)
      → ltb buffer_size padded ≡ false
      → (size (l ++ b ∷ []) == 0) ≡ false
      → ltb buffer_size (b.used + padded) ≡ false
      → svc_reserve K padded acquired (svc_of (l ++ b ∷ []) d)
        ≡ svc_take K padded (svc_of (l ++ b ∷ []) d) (back (l ++ b ∷ []))
  unfolding svc_reserve svc_make_room
  fits padded d acquired l b small some_buffer room =
      rw small (rw some_buffer (rw (K.back_last l b) (rw room (rw (K.back_last l b) refl))))

  full :
      (padded d : ℕ) (l : List SvcBuf) (b : SvcBuf)
      → ltb buffer_size padded ≡ false
      → (size (l ++ b ∷ []) == 0) ≡ false
      → ltb buffer_size (b.used + padded) ≡ true
      → svc_reserve K padded none (svc_of (l ++ b ∷ []) d)
        ≡ (none, svc_of (l ++ b ∷ []) ((d + 1) % word))
  unfolding svc_reserve svc_make_room svc_acquire_new
  full padded d l b small some_buffer no_room =
      rw small (rw some_buffer (rw (K.back_last l b) (rw no_room refl)))

  next :
      (padded d : ℕ) (memory : List ℕ) (l : List SvcBuf) (b : SvcBuf)
      → ltb buffer_size padded ≡ false
      → (size (l ++ b ∷ []) == 0) ≡ false
      → ltb buffer_size (b.used + padded) ≡ true
      → let bs = (l ++ b ∷ []) ++ fresh memory ∷ [] in
        svc_reserve K padded (some memory) (svc_of (l ++ b ∷ []) d)
        ≡ svc_take K padded (svc_of bs d) (back bs)
  unfolding svc_reserve svc_make_room svc_acquire_new
  next padded d memory l b small some_buffer no_room = rw small (
      rw some_buffer (
        rw (K.back_last l b)
          (rw no_room (rw (K.push_last_appends (l ++ b ∷ []) (fresh memory)) refl))))

  none_yet :
      (padded d : ℕ)
      → ltb buffer_size padded ≡ false
      → (size {A = SvcBuf} [] == 0) ≡ true
      → svc_reserve K padded none (svc_of [] d) ≡ (none, svc_of [] ((d + 1) % word))
  unfolding svc_reserve svc_acquire_new
  none_yet padded d small no_buffer = rw small (rw no_buffer refl)

  first :
      (padded d : ℕ) (memory : List ℕ)
      → ltb buffer_size padded ≡ false
      → (size {A = SvcBuf} [] == 0) ≡ true
      → ltb buffer_size (0 + padded) ≡ false
      → svc_reserve K padded (some memory) (svc_of [] d)
        ≡ svc_take K padded (svc_of ([] ++ fresh memory ∷ []) d) (back ([] ++ fresh memory ∷ []))
  unfolding svc_reserve svc_make_room svc_acquire_new
  first padded d memory small no_buffer room = rw small (
      rw no_buffer (
        rw (K.push_last_appends [] (fresh memory))
          (rw (K.back_last [] (fresh memory)) (rw room (rw (K.back_last [] (fresh memory)) refl)))))

  -- An entry written to the last of the buffers.
  took_place :
      (padded d : ℕ) (bytes : List ℕ) (es : List (List ℕ)) (l : List SvcBuf) (b : SvcBuf)
      (r : Option ℕ × Svc)
      → r ≡ svc_take K padded (svc_of (l ++ b ∷ []) d) (back (l ++ b ∷ []))
      → Holds (l ++ b ∷ []) es
      → b.used + padded ≤ buffer_size
      → length bytes ≤ padded
      → IsEntry (padded_to padded bytes)
      → Holds (store K r.0 bytes r.1).buffers (es ++ padded_to padded bytes ∷ [])
        × ((store K r.0 bytes r.1).dropped ≡ d)
  took_place padded d bytes es l b r e h room few entry =
      let (before, last, split, hl, hb) = Holds-last l b es h in
      let whole = ap (λ r. store K r.0 bytes r.1) e ∙ taken padded d bytes l b in
      subst (λ t. Holds t.buffers (es ++ padded_to padded bytes ∷ []) × (t.dropped ≡ d)) (sym whole)
        (
          subst (Holds (l ++ filled_with padded bytes b ∷ []))
              (sym (append_assoc before last (padded_to padded bytes ∷ []))
                ∙ ap (λ l. l ++ padded_to padded bytes ∷ []) (sym split))
              (Holds-append l (filled_with padded bytes b) before
                (last ++ padded_to padded bytes ∷ []) hl
                (Filled-filled_with padded bytes b last hb room few entry)),
          refl,
        )

  took_none :
      (padded d : ℕ) (bytes : List ℕ) (bs : List SvcBuf) (r : Option ℕ × Svc)
      → r ≡ (none, svc_of bs ((d + 1) % word))
      → ((store K r.0 bytes r.1).buffers ≡ bs) × ((store K r.0 bytes r.1).dropped ≡ (d + 1) % word)
  unfolding store
  took_none padded d bytes bs r e =
      (ap (λ r. (store K r.0 bytes r.1).buffers) e, ap (λ r. (store K r.0 bytes r.1).dropped) e)

  -- No buffer is there yet.
  put_first :
      (padded d : ℕ) (bytes : List ℕ) (acquired : Option (List ℕ))
      → IsAcquired acquired
      → padded ≤ buffer_size
      → length bytes ≤ padded
      → IsEntry (padded_to padded bytes)
      → Took acquired []
          (padded_to padded bytes)
          (svc_of [] d)
          (put K padded bytes acquired (svc_of [] d))
  put_first padded d bytes none size_ok small few entry =
      let no_buffer : (size {A = SvcBuf} [] == 0) ≡ true =
        ground (arith, K.size_counts {A = SvcBuf} []) in
      let s : ltb buffer_size padded ≡ false = ground arith in
      let kept = took_none padded d bytes [] _ (none_yet padded d s no_buffer) in
      inr (refl, kept.0, kept.1)
  put_first padded d bytes (some memory) size_ok small few entry =
      let no_buffer : (size {A = SvcBuf} [] == 0) ≡ true =
        ground (arith, K.size_counts {A = SvcBuf} []) in
      let s : ltb buffer_size padded ≡ false = ground arith in
      let room : ltb buffer_size (0 + padded) ≡ false = ground arith in
      inl (
        took_place padded d bytes [] [] (fresh memory) _ (first padded d memory s no_buffer room)
          (Holds-append [] (fresh memory) [] [] refl (Filled-fresh memory size_ok)) (omega arith)
          few entry)

  put_next :
      (padded d : ℕ) (bytes : List ℕ) (acquired : Option (List ℕ)) (es : List (List ℕ))
      (l : List SvcBuf) (b : SvcBuf)
      → Holds (l ++ b ∷ []) es
      → IsAcquired acquired
      → padded ≤ buffer_size
      → length bytes ≤ padded
      → IsEntry (padded_to padded bytes)
      → Took acquired es
          (padded_to padded bytes)
          (svc_of (l ++ b ∷ []) d)
          (put K padded bytes acquired (svc_of (l ++ b ∷ []) d))
  put_next padded d bytes acquired es l b h size_ok small few entry =
      let some_buffer : (size (l ++ b ∷ []) == 0) ≡ false =
        ground (arith, K.size_counts (l ++ b ∷ []), length-append l (b ∷ [])) in
      let s : ltb buffer_size padded ≡ false = ground arith in
      elim (Bool-cases (ltb buffer_size (b.used + padded))) [
        | inr room ↦ inl (
            took_place padded d bytes es l b _ (fits padded d acquired l b s some_buffer room) h
              (ground (arith, room)) few entry)
        | inl no_room ↦ put_beyond acquired size_ok some_buffer s no_room
      ]
    where
      put_beyond :
          (acquired : Option (List ℕ))
          → IsAcquired acquired
          → (size (l ++ b ∷ []) == 0) ≡ false
          → ltb buffer_size padded ≡ false
          → ltb buffer_size (b.used + padded) ≡ true
          → Took acquired es
              (padded_to padded bytes)
              (svc_of (l ++ b ∷ []) d)
              (put K padded bytes acquired (svc_of (l ++ b ∷ []) d))
      put_beyond none size_ok some_buffer s no_room =
          let kept =
            took_none padded d bytes (l ++ b ∷ []) _ (full padded d l b s some_buffer no_room) in
          inr (refl, kept.0, kept.1)
      put_beyond (some memory) size_ok some_buffer s no_room = inl (
          took_place padded d bytes es (l ++ b ∷ []) (fresh memory) _
            (next padded d memory l b s some_buffer no_room)
            (subst (Holds ((l ++ b ∷ []) ++ fresh memory ∷ [])) (append-nil es)
              (Holds-append (l ++ b ∷ []) (fresh memory) es [] h (Filled-fresh memory size_ok)))
            (omega arith) few entry)

  pub put-Took :
      (padded : ℕ) (bytes : List ℕ) (acquired : Option (List ℕ)) (es : List (List ℕ)) (s : Svc)
      → Holds s.buffers es
      → IsAcquired acquired
      → padded ≤ buffer_size
      → length bytes ≤ padded
      → IsEntry (padded_to padded bytes)
      → Took acquired es (padded_to padded bytes) s (put K padded bytes acquired s)
  put-Took padded bytes acquired es s h size_ok small few entry = elim (snoc-cases s.buffers) [
    | inl e ↦
        let nothing : [] ≡ es = sym (subst (λ bs. Holds bs es) e h) in
        subst
          (λ bs.
            Took acquired es (padded_to padded bytes) (svc_of bs s.dropped)
              (put K padded bytes acquired (svc_of bs s.dropped)))
          (sym e)
          (subst
            (λ es.
              Took acquired es (padded_to padded bytes) (svc_of [] s.dropped)
                (put K padded bytes acquired (svc_of [] s.dropped)))
            nothing (put_first padded s.dropped bytes acquired size_ok small few entry))
    | inr (l, b, e) ↦
        subst
          (λ bs.
            Took acquired es (padded_to padded bytes) (svc_of bs s.dropped)
              (put K padded bytes acquired (svc_of bs s.dropped)))
          (sym e)
          (put_next padded s.dropped bytes acquired es l b (subst (λ bs. Holds bs es) e h) size_ok
            small few entry)
  ]

  -- An entry that is larger than a buffer changes nothing.
  pub put_too_large :
      (padded : ℕ) (bytes : List ℕ) (acquired : Option (List ℕ)) (s : Svc)
      → buffer_size < padded
      → put K padded bytes acquired s ≡ s
  unfolding svc_reserve store
  put_too_large padded bytes acquired s large =
      let too_large : ltb buffer_size padded ≡ true = ground arith in rw too_large refl
