-- ===== src/Log/Front.antt =====
-- Where the header of a record stands while the record grows, and the store through lp_hdr.
use p.Prelude.{
  ℕ, ◌+◌, ◌%◌, ◌^◌, ◌≤◌, ◌<◌, ◌≡◌, refl, sym, ap, ◌∙◌, ◌⊎◌, inl, inr, Option, some, List, [], ◌∷◌,
  ◌++◌, ltb, length, take, drop, arith, if_cases, length-append, All, All-append,
  take-append_length, drop-append_length,
}
use mathlib.Core.Path.{subst}
use mathlib.Core.List.{append_assoc, append-nil}
use p.Writer.{Fragment, Writer, cursor}
use p.Writer.Trace.{body_of, Trace, stored, turned_over}
use p.Writer.Fragments.{bodies, bytes, bodies-append}
use p.Writer.Pull.{bodies-append_list}
use p.Writer.Thread.Ready.{IsSealed}
use p.Log.Send.{Header, header_bytes, fields_size, patch, patch_nth, patch_buffer, patch_header}

-- The record began in a buffer that held `front`, its header included, behind the fragments `before`,
-- and s was written since: the buffer is still in progress, or was rotated out.
abbrev pub InPlace : List Fragment → List ℕ → List ℕ → Writer → Type 0
InPlace before front s v =
    (v.fragments ≡ before) × ((b : Fragment) × (v.buffer ≡ some b) × (b.body ≡ front ++ s))

abbrev pub RotatedOut : List Fragment → List ℕ → List ℕ → Writer → Type 0
RotatedOut before front s v =
    (b : Fragment) × (t : List ℕ) × (more : List Fragment) × (v.fragments ≡ before ++ b ∷ more)
    × (b.body ≡ front ++ t)
    × IsSealed b
    × All IsSealed more
    × (s ≡ t ++ (bodies more ++ body_of v.buffer))

abbrev pub Front : ℕ → List Fragment → List ℕ → List ℕ → Writer → Type 0
Front max before front s v =
    (v.buf_max ≡ max) × (InPlace before front s v ⊎ RotatedOut before front s v)

module _ (max : ℕ) (small : max < 2 ^ 16) (before : List Fragment) (front : List ℕ) where
  stored-Front :
      (s t : List ℕ) (b : Fragment) (v : Writer)
      → v.buffer ≡ some b
      → Front max before front s v
      → Front max before front (s ++ t) (stored v b t)
  stored-Front s t b v e (limit, inl (same, (c, held, body))) = (
    limit,
    inl (
      same,
      (
        record b { body = b.body ++ t },
        refl,
        ap (λ l. l ++ t) (ap body_of (sym e ∙ held) ∙ body) ∙ append_assoc front s t,
      ),
    ),
  )
  stored-Front s t b v e (limit, inr (c, u, more, same, body, sealed, all, split)) = (
    limit,
    inr (
      c,
      u,
      more,
      same,
      body,
      sealed,
      all,
      ap (λ l. l ++ t) (split ∙ ap (λ o. u ++ (bodies more ++ body_of o)) e)
          ∙ append_assoc u (bodies more ++ b.body) t
          ∙ ap (◌++◌ u) (append_assoc (bodies more) b.body t),
    ),
  )

  turned-Front :
      (s : List ℕ) (b f : Fragment) (v : Writer) (o : Option Fragment) (used : ℕ)
      → v.buffer ≡ some b
      → cursor b ≤ v.buf_max
      → f.body ≡ b.body
      → f.size ≡ cursor b % 2 ^ 16
      → body_of o ≡ []
      → Front max before front s v
      → Front max before front s (turned_over v f o used)
  turned-Front s b f v o used e within same size fresh (limit, inl (whole, (c, held, body))) = (
    limit,
    inr (
      f,
      s,
      [],
      ap (λ l. l ++ f ∷ []) whole,
      same ∙ ap body_of (sym e ∙ held) ∙ body,
      omega (arith, ap length same),
      tt,
      sym (append-nil s) ∙ ap (◌++◌ s) (sym fresh),
    ),
  )
  turned-Front s b f v o used e within same size fresh
        (limit, inr (c, u, more, whole, body, sealed, all, split)) =
      (
        limit,
        inr (
          c,
          u,
          more ++ f ∷ [],
          ap (λ l. l ++ f ∷ []) whole ∙ append_assoc before (c ∷ more) (f ∷ []),
          body,
          sealed,
          All-append IsSealed more (f ∷ []) all (omega (arith, ap length same), tt),
          split
              ∙ ap (◌++◌ u) (
                  ap (λ q. bodies more ++ body_of q) e
                  ∙ ap (◌++◌ (bodies more)) (sym same)
                  ∙ sym (bodies-append more f)
                  ∙ sym (append-nil (bodies (more ++ f ∷ [])))
                  ∙ ap (◌++◌ (bodies (more ++ f ∷ []))) (sym fresh)),
        ),
      )

  pub Front-Trace : Trace (Front max before front)
  Front-Trace = record { on_store = stored-Front; on_turn = turned-Front }

pub length-header_bytes : (h : Header) → length (header_bytes h) ≡ fields_size
unfolding header_bytes
length-header_bytes h = refl

-- Bytes in the middle of a list, overwritten by as many.
overwritten :
    (pre old new tail s l : List ℕ)
    → l ≡ (pre ++ (old ++ tail)) ++ s
    → take (length pre) l ++ (new ++ drop (length pre + length old) l) ≡ (pre ++ (new ++ tail)) ++ s
overwritten pre old new tail s l e =
    let split = e ∙ append_assoc pre (old ++ tail) s ∙ ap (◌++◌ pre) (append_assoc old tail s) in
    let left = ap (take (length pre)) split ∙ take-append_length pre (old ++ (tail ++ s)) in
    let right =
      ap (drop (length pre + length old)) (split ∙ sym (append_assoc pre old (tail ++ s)))
      ∙ ap (λ n. drop n ((pre ++ old) ++ (tail ++ s))) (sym (length-append pre old))
      ∙ drop-append_length (pre ++ old) (tail ++ s) in
    ap (λ t. t ++ (new ++ drop (length pre + length old) l)) left
    ∙ ap (λ t. pre ++ (new ++ t)) right
    ∙ ap (◌++◌ pre) (sym (append_assoc new tail s))
    ∙ sym (append_assoc pre (new ++ tail) s)

-- A store to the fields of the header behind `pre`.
patched-body :
    (pre tail s : List ℕ) (h h' : Header) (b : Fragment)
    → b.body ≡ (pre ++ (header_bytes h ++ tail)) ++ s
    → (patch (length pre) h' b).body ≡ (pre ++ (header_bytes h' ++ tail)) ++ s
patched-body pre tail s h h' b e =
    ap (λ n. take (length pre) b.body ++ (header_bytes h' ++ drop (length pre + n) b.body))
      (sym (length-header_bytes h))
    ∙ overwritten pre (header_bytes h) (header_bytes h') tail s b.body e

length-front :
    (pre tail s : List ℕ) (h h' : Header)
    → length ((pre ++ (header_bytes h ++ tail)) ++ s)
      ≡ length ((pre ++ (header_bytes h' ++ tail)) ++ s)
length-front pre tail s h h' = omega (
  arith,
  length-append (pre ++ (header_bytes h ++ tail)) s,
  length-append (pre ++ (header_bytes h' ++ tail)) s,
  length-append pre (header_bytes h ++ tail),
  length-append pre (header_bytes h' ++ tail),
  length-append (header_bytes h) tail,
  length-append (header_bytes h') tail,
  length-header_bytes h,
  length-header_bytes h',
)

pub patch_nth-append :
    (before : List Fragment) (f : Fragment → Fragment) (b : Fragment) (more : List Fragment)
    → patch_nth (length before) f (before ++ b ∷ more) ≡ before ++ f b ∷ more
patch_nth-append [] f b more = refl
patch_nth-append (a ∷ before) f b more = ap (◌∷◌ a) (patch_nth-append before f b more)

-- The record once its header was stored anew: the whole is there, and every fragment stays sealed.
abbrev pub IsPatched : List Fragment → List ℕ → Writer → Writer → Type 0
IsPatched before whole w v =
    (bytes v ≡ bodies before ++ whole)
    × (v.buf_max ≡ w.buf_max)
    × All IsSealed v.fragments
    × ((c : Fragment)
        → w.buffer ≡ some c
        → (b : Fragment) × (v.buffer ≡ some b) × (cursor b ≡ cursor c))

module _ (before : List Fragment) (pre tail s : List ℕ) (h h' : Header) (w : Writer) where
  abbrev front : List ℕ
  front = pre ++ (header_bytes h ++ tail)

  InPlace-IsPatched :
      All IsSealed before
      → InPlace before front s w
      → IsPatched before
          ((pre ++ (header_bytes h' ++ tail)) ++ s)
          w
          (record w { buffer = patch_buffer (patch (length pre) h') w.buffer })
  InPlace-IsPatched sealed (same, (b, e, body)) =
      subst
        (λ o.
          IsPatched before ((pre ++ (header_bytes h' ++ tail)) ++ s) w
            (record w { buffer = patch_buffer (patch (length pre) h') o }))
        (sym e)
        (
          ap (λ l. bodies l ++ (patch (length pre) h' b).body) same
              ∙ ap (◌++◌ (bodies before)) (patched-body pre tail s h h' b body),
          refl,
          subst (All IsSealed) (sym same) sealed,
          λ c k. (
            patch (length pre) h' b,
            refl,
            omega (
              arith,
              ap (λ o. length (body_of o)) (sym e ∙ k),
              ap length (patched-body pre tail s h h' b body),
              ap length body,
              length-front pre tail s h h',
            ),
          ),
        )

  RotatedOut-IsPatched :
      All IsSealed before
      → RotatedOut before front s w
      → IsPatched before
          ((pre ++ (header_bytes h' ++ tail)) ++ s)
          w
          (record w { fragments = patch_nth (length before) (patch (length pre) h') w.fragments })
  RotatedOut-IsPatched sealed (b, t, more, same, body, one, all, split) =
      let f = patch (length pre) h' in
      let patched = patched-body pre tail t h h' b body in
      let moved = ap (patch_nth (length before) f) same ∙ patch_nth-append before f b more in
      let whole = (pre ++ (header_bytes h' ++ tail)) in
      (
        ap (λ l. bodies l ++ body_of w.buffer) moved
            ∙ ap (λ l. l ++ body_of w.buffer) (bodies-append_list before (f b ∷ more))
            ∙ append_assoc (bodies before) ((f b).body ++ bodies more) (body_of w.buffer)
            ∙ ap (◌++◌ (bodies before)) (
                ap (λ l. (l ++ bodies more) ++ body_of w.buffer) patched
                ∙ append_assoc (whole ++ t) (bodies more) (body_of w.buffer)
                ∙ append_assoc whole t (bodies more ++ body_of w.buffer)
                ∙ ap (◌++◌ whole) (sym split)),
        refl,
        subst (All IsSealed) (sym moved) (
            All-append IsSealed before (f b ∷ more) sealed (
              omega (arith, ap length patched, ap length body, length-front pre tail t h h'),
              all,
            )),
        λ c k. (c, k, refl),
      )

  pub patch_header-IsPatched :
      (max : ℕ)
      → All IsSealed before
      → Front max before front s w
      → IsPatched before
          ((pre ++ (header_bytes h' ++ tail)) ++ s)
          w
          (patch_header (length before) (patch (length pre) h') w)
  patch_header-IsPatched max sealed (limit, inl (same, place)) =
      if_cases (IsPatched before ((pre ++ (header_bytes h' ++ tail)) ++ s) w)
        (ltb (length before) (length w.fragments)) _ _
        (λ beyond. absurd (ground (arith, beyond, ap length same)))
        (λ here. InPlace-IsPatched sealed (same, place))
  patch_header-IsPatched max sealed (limit, inr (b, t, more, same, body, one, all, split)) =
      if_cases (IsPatched before ((pre ++ (header_bytes h' ++ tail)) ++ s) w)
        (ltb (length before) (length w.fragments)) _ _
        (λ beyond. RotatedOut-IsPatched sealed (b, t, more, same, body, one, all, split))
        (λ here. absurd (ground (arith, here, ap length same, length-append before (b ∷ more))))
