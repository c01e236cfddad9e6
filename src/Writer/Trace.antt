-- ===== src/Writer/Trace.antt =====
-- How a writer grows while a record is written: by stores at its cursor and by rotations. What both
-- keep, P8_ENSURE_SPACE and copy_fragmented keep.
use p.Prelude.{
  ℕ, zero, suc, ◌+◌, ◌-◌, ◌%◌, ◌^◌, ◌≤◌, ◌<◌, ◌≡◌, refl, sym, ap, ◌∙◌, ◌⊎◌, inl, inr, Bool, true,
  false, Option, none, some, List, [], ◌∷◌, ◌++◌, ◌==◌, length, take, drop, min, ltb, arith,
  Bool-cases, length-append, length-take, length-drop,
}
use mathlib.Core.Path.{subst}
use mathlib.Core.List.{append_assoc, append-nil}
use p.Kit.{Lst}
use p.Writer.{
  Fragment, Writer, hdr_size, cursor, with_fragment_flag, rotate, rotate_fragment_buffer, Room,
  null, exhausted, roomy, make_room, ensure_space, next_answer, rotated, copy_loop, copy_fragmented,
}

abbrev pub body_of : Option Fragment → List ℕ
body_of none = []
body_of (some b) = b.body

-- A writer in the middle of a record: its buffer is there, and the cursor stands within it.
abbrev pub IsWriting : Writer → Fragment → Type 0
IsWriting w b = (w.buffer ≡ some b) × (cursor b ≤ w.buf_max) × (hdr_size < w.buf_max)

-- The writer after bytes were stored at the cursor of b.
abbrev pub stored : Writer → Fragment → List ℕ → Writer
stored v b s = record v { buffer = some (record b { body = b.body ++ s }) }

-- The writer after its buffer was finished as f.
abbrev pub turned_over : Writer → Fragment → Option Fragment → ℕ → Writer
turned_over v f o used = record v { fragments = v.fragments ++ f ∷ []; buffer = o; buf_used = used }

-- A statement on the bytes written since some moment and the writer that holds them, which a store
-- of further bytes and a rotation keep.
pub record Trace (P : List ℕ → Writer → Type 0) : Type 0 where
  pub on_store :
      (s t : List ℕ) (b : Fragment) (v : Writer)
      → v.buffer ≡ some b
      → P s v
      → P (s ++ t) (stored v b t)
  pub on_turn :
      (s : List ℕ) (b f : Fragment) (v : Writer) (o : Option Fragment) (used : ℕ)
      → v.buffer ≡ some b
      → cursor b ≤ v.buf_max
      → f.body ≡ b.body
      → f.size ≡ cursor b % 2 ^ 16
      → body_of o ≡ []
      → P s v
      → P s (turned_over v f o used)

module _ (P : List ℕ → Writer → Type 0) where
  -- A round has found room: the bytes are as they were.
  abbrev pub HasRoom : ℕ → List ℕ → Room → Type 0
  HasRoom needed s null = ⊥
  HasRoom needed s (exhausted v) = P s v × (v.buffer ≡ none)
  HasRoom needed s (roomy v b answers) =
      P s v × (v.buffer ≡ some b) × (cursor b + needed ≤ v.buf_max) × (hdr_size < v.buf_max)

  -- What copying src after s made: the first k bytes are behind s, all of them on success.
  abbrev pub Copied : List ℕ → List ℕ → ℕ → Option (Bool × Writer × ℕ × List Bool) → Type 0
  Copied s src written none = ⊥
  Copied s src written (some (ok, v, n, rest)) =
      (k : ℕ) × (n ≡ written + k)
      × P (s ++ take k src) v
      × (((ok ≡ true) × (k ≡ length src) × ((b : Fragment) × IsWriting v b))
          ⊎ ((ok ≡ false) × (k < length src) × (v.buffer ≡ none)))

take-drop :
    (n k : ℕ) (src : List ℕ) → n ≤ length src → take (n + k) src ≡ take n src ++ take k (drop n src)
take-drop zero k src h = let same : 0 + k ≡ k = omega arith in ap (λ m. take m src) same
take-drop (suc n) k [] h = absurd (omega arith)
take-drop (suc n) k (c ∷ src) h =
    let same : suc n + k ≡ suc (n + k) = omega arith in
    ap (λ m. take m (c ∷ src)) same ∙ ap (◌∷◌ c) (take-drop n k src (omega arith))

module _ (K : Lst) where
  rotate_fragment_buffer_lem :
      (now : ℕ) (answer : Bool) (b : Fragment) (w : Writer)
      → w.buffer ≡ some b
      → rotate_fragment_buffer K now answer w ≡ some (rotate K now answer b w)
  unfolding rotate_fragment_buffer
  rotate_fragment_buffer_lem now answer b w e =
      ap (λ o. elim o [ none ↦ none | some b ↦ some (rotate K now answer b w) ]) e

  abbrev round : ℕ → ℕ → List Bool → List ℕ → ℕ → Room → Option (Bool × Writer × ℕ × List Bool)
  round fuel now answers src written null = none
  round fuel now answers src written (exhausted v) = some (false, v, written, drop 1 answers)
  round fuel now answers src written (roomy v b rest) =
      let n = min (length src) (v.buf_max - cursor b) in
      copy_loop K fuel now rest (drop n src) (stored v b (take n src)) (written + n)

  copy_loop-round :
      (fuel now : ℕ) (answers : List Bool) (c : ℕ) (src : List ℕ) (w : Writer) (written : ℕ)
      → copy_loop K (suc fuel) now answers (c ∷ src) w written
        ≡ round fuel now answers (c ∷ src) written (make_room K now answers w w.buffer)
  unfolding copy_loop
  copy_loop-round fuel now answers c src w written = by_room (make_room K now answers w w.buffer)
    where
      by_room :
          (r : Room)
          → elim r [
            | null ↦ none
            | exhausted v ↦ some (false, v, written, drop 1 answers)
            | roomy v b rest ↦
                let n = min (length (c ∷ src)) (v.buf_max - cursor b) in
                copy_loop K fuel now rest
                  (drop n (c ∷ src))
                  (record v { buffer = some (record b { body = b.body ++ take n (c ∷ src) }) })
                  (written + n)
          ]
            ≡ round fuel now answers (c ∷ src) written r
      by_room null = refl
      by_room (exhausted v) = refl
      by_room (roomy v b rest) = refl

  copy_loop_empty :
      (fuel now : ℕ) (answers : List Bool) (w : Writer) (written : ℕ)
      → copy_loop K fuel now answers [] w written ≡ some (true, w, written, answers)
  unfolding copy_loop
  copy_loop_empty zero now answers w written = refl
  copy_loop_empty (suc fuel) now answers w written = refl

module _ (K : Lst) (P : List ℕ → Writer → Type 0) (T : Trace P) where
  -- The list of kit in place of the append.
  pub pushed :
      (s : List ℕ) (f : Fragment) (w : Writer) (o : Option Fragment) (used : ℕ)
      → P s (turned_over w f o used)
      → P s (record w { fragments = K.push_last w.fragments f; buffer = o; buf_used = used })
  pushed s f w o used held =
      subst (λ l. P s (record w { fragments = l; buffer = o; buf_used = used }))
        (sym (K.push_last_appends w.fragments f)) held

  rotated-HasRoom :
      (now needed : ℕ) (answer : Bool) (answers : List Bool) (s : List ℕ) (b : Fragment)
      (w : Writer)
      → w.buffer ≡ some b
      → cursor b ≤ w.buf_max
      → hdr_size + needed ≤ w.buf_max
      → hdr_size < w.buf_max
      → P s w
      → HasRoom P needed s
          (rotated answers (some (rotate K now answer b (record w { buf_used = cursor b }))))
  unfolding rotate
  rotated-HasRoom now needed true answers s b w e within fits large held = (
    pushed s
        (record b { flags = with_fragment_flag b.flags; size = cursor b % 2 ^ 16; stop_time = now })
        w _ _ (T.on_turn s b _ w _ _ e within refl refl refl held),
    refl,
    fits,
    large,
  )
  rotated-HasRoom now needed false answers s b w e within fits large held = (
    pushed s
        (record b { flags = with_fragment_flag b.flags; size = cursor b % 2 ^ 16; stop_time = now })
        w _ _ (T.on_turn s b _ w _ _ e within refl refl refl held),
    refl,
  )

  rotation-HasRoom :
      (now needed : ℕ) (answer : Bool) (answers : List Bool) (s : List ℕ) (b : Fragment)
      (w : Writer)
      → w.buffer ≡ some b
      → cursor b ≤ w.buf_max
      → hdr_size + needed ≤ w.buf_max
      → hdr_size < w.buf_max
      → P s w
      → HasRoom P needed s
          (rotated answers (rotate_fragment_buffer K now answer (record w { buf_used = cursor b })))
  rotation-HasRoom now needed answer answers s b w e within fits large held =
      subst (λ r. HasRoom P needed s (rotated answers r))
        (sym (rotate_fragment_buffer_lem K now answer b (record w { buf_used = cursor b }) e))
        (rotated-HasRoom now needed answer answers s b w e within fits large held)

  make_room-HasRoom :
      (now : ℕ) (answers : List Bool) (s : List ℕ) (b : Fragment) (w : Writer)
      → IsWriting w b
      → P s w
      → HasRoom P 1 s (make_room K now answers w w.buffer)
  unfolding make_room
  make_room-HasRoom now answers s b w (e, within, large) held =
      subst (λ o. HasRoom P 1 s (make_room K now answers w o)) (sym e)
        (elim (Bool-cases (w.buf_max - cursor b == 0)) [
          | inl full ↦ rw full (
              rotation-HasRoom now 1 (next_answer answers) (drop 1 answers) s b w e within
                (omega arith) large held)
          | inr free ↦ rw free (held, e, ground (arith, free), large)
        ])

  pub ensure_space-HasRoom :
      (now needed : ℕ) (answers : List Bool) (s : List ℕ) (b : Fragment) (w : Writer)
      → IsWriting w b
      → hdr_size + needed ≤ w.buf_max
      → P s w
      → HasRoom P needed s (ensure_space K now needed answers w w.buffer)
  unfolding ensure_space
  ensure_space-HasRoom now needed answers s b w (e, within, large) fits held =
      subst (λ o. HasRoom P needed s (ensure_space K now needed answers w o)) (sym e)
        (elim (Bool-cases (ltb w.buf_max (cursor b + needed))) [
          | inl full ↦ rw full (
              rotation-HasRoom now needed (next_answer answers) (drop 1 answers) s b w e within fits
                large held)
          | inr free ↦ rw free (held, e, ground (arith, free), large)
        ])

  Copied-step :
      (s src : List ℕ) (n written : ℕ) (r : Option (Bool × Writer × ℕ × List Bool))
      → n ≤ length src
      → Copied P (s ++ take n src) (drop n src) (written + n) r
      → Copied P s src written r
  Copied-step s src n written none h c = c
  Copied-step s src n written (some (ok, u, m, rest)) h (k, count, held, ends) = (
    n + k,
    omega arith,
    subst (λ l. P l u)
        (append_assoc s (take n src) (take k (drop n src))
          ∙ ap (◌++◌ s) (sym (take-drop n k src h)))
        held,
    elim ends [
      | inl (done, whole, going) ↦ inl (done, omega (arith, length-drop n src), going)
      | inr (failed, part, gone) ↦ inr (failed, omega (arith, length-drop n src), gone)
    ],
  )

  -- One round, given what the loop does with one less of fuel.
  round-Copied :
      (fuel now c : ℕ) (answers : List Bool) (s src : List ℕ) (written : ℕ) (room : Room)
      → length (c ∷ src) ≤ suc fuel
      → HasRoom P 1 s room
      → ((rest : List Bool) (seen more : List ℕ) (b : Fragment) (v : Writer) (n : ℕ)
          → length more ≤ fuel
          → IsWriting v b
          → P seen v
          → Copied P seen more n (copy_loop K fuel now rest more v n))
      → Copied P s (c ∷ src) written (round K fuel now answers (c ∷ src) written room)
  round-Copied fuel now c answers s src written null h room loop = room
  round-Copied fuel now c answers s src written (exhausted v) h (held, gone) loop =
      (0, omega arith, subst (λ l. P l v) (sym (append-nil s)) held, inr (refl, omega arith, gone))
  round-Copied fuel now c answers s src written (roomy v b rest) h (held, e, free, large) loop =
      let n = min (length (c ∷ src)) (v.buf_max - cursor b) in
      let taken = length-take n (c ∷ src) in
      let fits = length-append b.body (take n (c ∷ src)) in
      Copied-step s (c ∷ src) n written _ (omega arith) (
        loop rest (s ++ take n (c ∷ src)) (drop n (c ∷ src))
          (record b { body = b.body ++ take n (c ∷ src) }) (stored v b (take n (c ∷ src)))
          (written + n) (omega (arith, length-drop n (c ∷ src)))
          (refl, omega (arith, taken, fits), large) (T.on_store s (take n (c ∷ src)) b v e held))

  copy_loop-Copied :
      (fuel now : ℕ) (answers : List Bool) (s src : List ℕ) (b : Fragment) (w : Writer)
      (written : ℕ)
      → length src ≤ fuel
      → IsWriting w b
      → P s w
      → Copied P s src written (copy_loop K fuel now answers src w written)
  copy_loop-Copied fuel now answers s [] b w written h writing held =
      subst (Copied P s [] written) (sym (copy_loop_empty K fuel now answers w written)) (
        0,
        omega arith,
        subst (λ l. P l w) (sym (append-nil s)) held,
        inl (refl, refl, (b, writing)),
      )
  copy_loop-Copied zero now answers s (c ∷ src) b w written h writing held = absurd (omega arith)
  copy_loop-Copied (suc fuel) now answers s (c ∷ src) b w written h writing held =
      subst (Copied P s (c ∷ src) written)
        (sym (copy_loop-round K fuel now answers c src w written))
        (round-Copied fuel now c answers s src written (make_room K now answers w w.buffer) h
          (make_room-HasRoom now answers s b w writing held)
          (λ rest seen more a v n few going kept.
            copy_loop-Copied fuel now rest seen more a v n few going kept))

  pub copy_fragmented-Copied :
      (now : ℕ) (answers : List Bool) (s src : List ℕ) (b : Fragment) (w : Writer) (written : ℕ)
      → IsWriting w b
      → P s w
      → Copied P s src written (copy_fragmented K now answers src w written)
  unfolding copy_fragmented
  copy_fragmented-Copied now answers s src b w written writing held =
      copy_loop-Copied (length src) now answers s src b w written (omega arith) writing held
