-- ===== src/Core/Metrics/Blob.antt =====
-- The blob of a metric's attributes: the registered ones among the first, in order.
use p.Prelude.{
  ℕ, zero, suc, ◌+◌, ◌≡◌, refl, sym, ap, ◌∙◌, true, false, Option, none, some, List, [], ◌∷◌, ◌++◌,
  ◌==◌, inl, inr, if◌then◌else◌, length, take, arith, Option-cases,
}
use mathlib.Core.List.{append_assoc, append-nil}
use p.Core.Descriptor.{AttrDesc}
use p.Core.Service.{int32_bytes}
use p.Core.Attributes.{at_id}
use p.Core.Metrics.{AttrVal, encode_value, encode_loop, encode_attr_blob}

-- The encodings of the attributes that are registered.
abbrev pub known_value : Option AttrDesc → AttrVal → List (List ℕ) → List (List ℕ)
known_value none v rest = rest
known_value (some d) v rest = (int32_bytes v.id ++ encode_value d v) ∷ rest

abbrev pub known_values : List AttrDesc → List AttrVal → List (List ℕ)
known_values descs [] = []
known_values descs (v ∷ vs) = known_value (at_id descs v.id) v (known_values descs vs)

abbrev pub flat : List (List ℕ) → List ℕ
flat [] = []
flat (e ∷ es) = e ++ flat es

abbrev after : ℕ → List ℕ → List (List ℕ) → ℕ × List ℕ
after n blob es = (n + length es, blob ++ flat es)

-- One round of the loop.
round :
    (descs : List AttrDesc) (v : AttrVal) (vs : List AttrVal) (n : ℕ) (blob : List ℕ)
    (o : Option AttrDesc)
    → at_id descs v.id ≡ o
    → encode_loop descs (v ∷ vs) n blob ≡ elim o [
      | none ↦ encode_loop descs vs n blob
      | some d ↦
          let blob' = blob ++ (int32_bytes v.id ++ encode_value d v) in
          let rest = encode_loop descs vs (n + 1) blob' in
          if n + 1 == 255 then (n + 1, blob') else rest
    ]
round descs v vs n blob o e =
    ap
      (λ o. elim o [
        | none ↦ encode_loop descs vs n blob
        | some d ↦
            let blob' = blob ++ (int32_bytes v.id ++ encode_value d v) in
            let rest = encode_loop descs vs (n + 1) blob' in
            if n + 1 == 255 then (n + 1, blob') else rest
      ])
      e

take_none : (es : List (List ℕ)) (k : ℕ) → k ≡ 0 → take k es ≡ []
take_none es k e = ap (λ k. take k es) e

encode_loop_lem :
    (descs : List AttrDesc) (vs : List AttrVal) (n k : ℕ) (blob : List ℕ)
    → n + suc k ≡ 255
    → encode_loop descs vs n blob ≡ after n blob (take (suc k) (known_values descs vs))
encode_loop_lem descs [] n k blob room =
    let same : n ≡ n + 0 = omega arith in
    ap (λ n. (n, blob)) same ∙ ap (λ b. (n + 0, b)) (sym (append-nil blob))
encode_loop_lem descs (v ∷ vs) n k blob room = elim (Option-cases (at_id descs v.id)) [
  | inl unknown ↦
      round descs v vs n blob none unknown
      ∙ encode_loop_lem descs vs n k blob room
      ∙ ap (λ o. after n blob (take (suc k) (known_value o v (known_values descs vs))))
          (sym unknown)
  | inr (d, known) ↦
      round descs v vs n blob (some d) known
      ∙ added d k room (λ k room.
        encode_loop_lem descs vs (n + 1) k (blob ++ (int32_bytes v.id ++ encode_value d v)) room)
      ∙ ap (λ o. after n blob (take (suc k) (known_value o v (known_values descs vs)))) (sym known)
]
  where
    added :
        (d : AttrDesc) (k : ℕ)
        → n + suc k ≡ 255
        → ((k : ℕ)
            → n + 1 + suc k ≡ 255
            → let blob' = blob ++ (int32_bytes v.id ++ encode_value d v) in
              encode_loop descs vs (n + 1) blob'
              ≡ after (n + 1) blob' (take (suc k) (known_values descs vs)))
        → let e = int32_bytes v.id ++ encode_value d v in
          (if n + 1 == 255 then (n + 1, blob ++ e) else encode_loop descs vs (n + 1) (blob ++ e))
          ≡ after n blob (e ∷ take k (known_values descs vs))
    added d zero room others =
        let last : (n + 1 == 255) ≡ true = ground arith in
        let e = int32_bytes v.id ++ encode_value d v in
        rw last (ap (λ b. (n + 1, blob ++ b)) (sym (append-nil e)))
    added d (suc k) room others =
        let e = int32_bytes v.id ++ encode_value d v in
        let rest = take (suc k) (known_values descs vs) in
        let more : (n + 1 == 255) ≡ false = ground arith in
        let count : n + 1 + length rest ≡ n + suc (length rest) = omega arith in
        rw more (
          others k (omega arith)
          ∙ ap (λ m. (m, (blob ++ e) ++ flat rest)) count
          ∙ ap (λ b. (n + suc (length rest), b)) (append_assoc blob e (flat rest)))

-- The attribute blob of a metric is the encodings of the first 255 of its attributes that are
-- registered, one after the other in order, and the count beside it is their number.
pub encode_attr_blob_lem :
    (descs : List AttrDesc) (vs : List AttrVal)
    → encode_attr_blob descs (some vs)
      ≡ (length (take 255 (known_values descs vs)), flat (take 255 (known_values descs vs)))
unfolding encode_attr_blob
encode_attr_blob_lem descs vs =
    let none_before : 0 + length (take 255 (known_values descs vs))
        ≡ length (take 255 (known_values descs vs)) =
      omega arith in
    encode_loop_lem descs vs 0 254 [] refl
    ∙ ap (λ n. (n, flat (take 255 (known_values descs vs)))) none_before
