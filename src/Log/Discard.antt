-- ===== src/Log/Discard.antt =====
-- The way back at lbl_discard.
use p.Prelude.{
  ℕ, zero, suc, ◌+◌, ◌%◌, ◌^◌, ◌≤◌, ◌≡◌, refl, sym, ap, ◌∙◌, ◌⊎◌, inl, inr, Bool, false, none, some,
  List, [], ◌∷◌, ◌++◌, ltb, length, arith, if_cases, length-append,
}
use mathlib.Core.Path.{subst}
use mathlib.Core.List.{append_assoc, append-nil, reverse, reverse-append}
use p.Kit.{Lst}
use p.Budget.{word}
use p.Writer.{Fragment, Writer}
use p.Log.{Item}
use p.Log.Send.{Header, Log, item_size, patch, patch_nth, patch_header, roll_back, discard}
use p.Log.Front.{Front, RotatedOut, patch_nth-append}

-- A list is empty or has a last element.
last_cases :
    (l : List Fragment) → (l ≡ []) ⊎ ((m : List Fragment) × (b : Fragment) × (l ≡ m ++ b ∷ []))
last_cases [] = inl refl
last_cases (a ∷ l) = elim (last_cases l) [
  | inl e ↦ inr ([], a, ap (◌∷◌ a) e)
  | inr (m, b, e) ↦ inr (a ∷ m, b, ap (◌∷◌ a) e)
]

module _ (K : Lst) where
  roll_back_lem :
      (fuel : ℕ) (before more released : List Fragment)
      → length more ≤ fuel
      → roll_back K fuel (length before) (before ++ more) released
        ≡ (before, released ++ reverse more)
  unfolding roll_back
  roll_back_lem zero before [] released few =
      ap (λ l. (l, released)) (append-nil before)
      ∙ ap (λ l. (before, l)) (sym (append-nil released))
  roll_back_lem zero before (b ∷ more) released few = absurd (omega arith)
  roll_back_lem (suc fuel) before more released few = elim (last_cases more) [
    | inl e ↦
        subst
          (λ l.
            roll_back K (suc fuel) (length before) (before ++ l) released
            ≡ (before, released ++ reverse l))
          (sym e)
          (if_cases (λ (r : List Fragment × List Fragment). r ≡ (before, released ++ []))
            (ltb (length before) (K.size (before ++ []))) _ _
            (λ beyond.
              absurd
                (ground (arith, beyond, K.size_counts (before ++ []), length-append before [])))
            (λ done.
              ap (λ l. (l, released)) (append-nil before)
              ∙ ap (λ l. (before, l)) (sym (append-nil released))))
    | inr (m, b, e) ↦
        subst
          (λ l.
            roll_back K (suc fuel) (length before) (before ++ l) released
            ≡ (before, released ++ reverse l))
          (sym e)
          (if_cases
            (λ (r : List Fragment × List Fragment). r ≡ (before, released ++ reverse (m ++ b ∷ [])))
            (ltb (length before) (K.size (before ++ (m ++ b ∷ [])))) _ _
            (λ beyond.
              ap
                (λ o. elim o [
                  | none ↦ (before ++ (m ++ b ∷ []), released)
                  | some (c, rest) ↦ roll_back K fuel (length before) rest (released ++ c ∷ [])
                ])
                (ap K.pull_last (sym (append_assoc before m (b ∷ [])))
                  ∙ K.pull_last_takes (before ++ m) b)
              ∙ roll_back_lem fuel before m (released ++ b ∷ [])
                  (omega (arith, ap length e, length-append m (b ∷ [])))
              ∙ ap (λ l. (before, l))
                  (append_assoc released (b ∷ []) (reverse m)
                    ∙ ap (◌++◌ released) (sym (reverse-append m (b ∷ [])))))
            (λ done. absurd (
              ground (
                arith,
                done,
                K.size_counts (before ++ (m ++ b ∷ [])),
                length-append before (m ++ b ∷ []),
                length-append m (b ∷ []),
              ))))
  ]

-- What a discarded record leaves of a thread: the fragments of before it, and no buffer.
abbrev pub IsDiscarded : List Fragment → Log → Bool × Log → Type 0
IsDiscarded before l (ok, m) =
    (ok ≡ false)
    × (m.thread.writer.fragments ≡ before)
    × (m.thread.writer.buffer ≡ none)
    × (m.thread.batch ≡ l.thread.batch)
    × (m.thread.dropped.logs ≡ (l.thread.dropped.logs + 1) % word)

module _ (K : Lst) where
  rolled_back-IsDiscarded :
      (at : ℕ) (h : Header) (max : ℕ) (before : List Fragment) (front s : List ℕ) (i : Item)
      (l : Log)
      → RotatedOut before front s i.writer
      → IsDiscarded before l (discard K (length before) at h i l)
  unfolding discard
  rolled_back-IsDiscarded at h max before front s i l (b, t, more, same, rest, one, all, split) =
      let h' : Header = record h {
        args_size = i.args_size % 2 ^ 16;
        attrs_count = i.attrs_count;
        size = (item_size + i.args_size + i.attrs_size) % 2 ^ 16;
      } in
      let f = patch at h' in
      let patched : (patch_header (length before) f i.writer).fragments ≡ before ++ f b ∷ more =
        if_cases (λ (w : Writer). w.fragments ≡ before ++ f b ∷ more)
          (ltb (length before) (length i.writer.fragments)) _ _
          (λ beyond. ap (patch_nth (length before) f) same ∙ patch_nth-append before f b more)
          (λ here.
            absurd (ground (arith, here, ap length same, length-append before (b ∷ more)))) in
      (
        refl,
        ap (λ (q : List Fragment). (roll_back K (K.size q) (length before) q l.released).0) patched
            ∙ ap (λ (q : List Fragment × List Fragment). q.0)
                (roll_back_lem K (K.size (before ++ f b ∷ more)) before (f b ∷ more) l.released (
                  omega (
                    arith,
                    K.size_counts (before ++ f b ∷ more),
                    length-append before (f b ∷ more),
                  ))),
        refl,
        refl,
        refl,
      )

  pub discard-IsDiscarded :
      (at : ℕ) (h : Header) (max : ℕ) (before : List Fragment) (front s : List ℕ) (i : Item)
      (l : Log)
      → Front max before front s i.writer
      → i.writer.buffer ≡ none
      → IsDiscarded before l (discard K (length before) at h i l)
  discard-IsDiscarded at h max before front s i l (limit, inl (same, (b, e, body))) gone = cc
  discard-IsDiscarded at h max before front s i l (limit, inr out) gone =
      rolled_back-IsDiscarded at h max before front s i l out
