-- ===== src/Core/Names/Index.antt =====
-- A vector of named objects and the map of their names to their places.
use p.Prelude.{
  ℕ, zero, suc, ◌≡◌, refl, sym, ap, ◌∙◌, ◌⊎◌, inl, inr, true, false, Option, none, some, some_eq,
  List, [], ◌∷◌, ◌++◌, ◌==◌, ==_iff, length, get_elem?, Bool-cases,
}
use p.Core.Descriptor.{Str}
use p.Core.Names.{str_eq, find}

pub str_eq→≡ : (a b : Str) → str_eq a b ≡ true → a ≡ b
str_eq→≡ [] [] h = refl
str_eq→≡ [] (d ∷ b) h = cc
str_eq→≡ (c ∷ a) [] h = cc
str_eq→≡ (c ∷ a) (d ∷ b) h = elim (Bool-cases (c == d)) [
  | inl same ↦
      let rest = rw same at h in
      let head = (==_iff c d).0 same in
      let tail = str_eq→≡ a b rest in ap (λ x. x ∷ a) head ∙ ap (◌∷◌ d) tail
  | inr other ↦ let wrong = rw other at h in cc
]

pub str_eq_refl : (a : Str) → str_eq a a ≡ true
str_eq_refl [] = refl
str_eq_refl (c ∷ a) = rw ((==_iff c c).1 refl) (str_eq_refl a)

module _ {ℓ} {A : Type ℓ} where
  pub find_here : (m : List (Str × A)) (name : Str) (k : A) → find ((name, k) ∷ m) name ≡ some k
  find_here m name k = rw (str_eq_refl name) refl

  pub find_there :
      (m : List (Str × A)) (name other : Str) (k : A)
      → str_eq name other ≡ false
      → find ((name, k) ∷ m) other ≡ find m other
  find_there m name other k h = rw h refl

  pub get_elem?-append :
      (l : List A) (a b : A) (n : ℕ) → get_elem? l n ≡ some a → get_elem? (l ++ b ∷ []) n ≡ some a
  get_elem?-append [] a b n h = cc
  get_elem?-append (x ∷ l) a b zero h = h
  get_elem?-append (x ∷ l) a b (suc n) h = get_elem?-append l a b n h

  pub get_elem?_last : (l : List A) (b : A) → get_elem? (l ++ b ∷ []) (length l) ≡ some b
  get_elem?_last [] b = refl
  get_elem?_last (x ∷ l) b = get_elem?_last l b

  pub get_elem?_cases :
      (l : List A) (a b : A) (n : ℕ)
      → get_elem? (l ++ b ∷ []) n ≡ some a
      → (get_elem? l n ≡ some a) ⊎ ((n ≡ length l) × (b ≡ a))
  get_elem?_cases [] a b zero h = inr (refl, some_eq h)
  get_elem?_cases [] a b (suc n) h = cc
  get_elem?_cases (x ∷ l) a b zero h = inl h
  get_elem?_cases (x ∷ l) a b (suc n) h = elim (get_elem?_cases l a b n h) [
    | inl old ↦ inl old
    | inr (last, same) ↦ inr (ap suc last, same)
  ]

-- Every name of the map leads to the object of this name, and every object is found by its name.
abbrev pub IsIndex {ℓ κ} :
    {A : Type ℓ} {K : Type κ} → (A → Option Str) → (ℕ → K) → List A → List (Str × K) → Type (ℓ ⊔ κ)
IsIndex {A = A} {K = K} name_of place l m =
    ((name : Str) (k : K)
      → find m name ≡ some k
      → (n : ℕ) × (a : A) × (k ≡ place n) × (get_elem? l n ≡ some a) × (name_of a ≡ some name))
    × ((n : ℕ) (a : A)
        → get_elem? l n ≡ some a
        → (name : Str) × (name_of a ≡ some name) × (find m name ≡ some (place n)))

module _ {ℓ κ} {A : Type ℓ} {K : Type κ} (name_of : A → Option Str) (place : ℕ → K) where
  -- A new name, appended.
  pub IsIndex-append :
      (l : List A) (m : List (Str × K)) (a : A) (name : Str)
      → IsIndex name_of place l m
      → find m name ≡ none
      → name_of a ≡ some name
      → IsIndex name_of place (l ++ a ∷ []) ((name, place (length l)) ∷ m)
  IsIndex-append l m a name (there, back) fresh named = (
    λ other k h. elim (Bool-cases (str_eq name other)) [
      | inl same ↦
          let at_last = some_eq (sym (rw same refl) ∙ h) in
          (length l, a, sym at_last, get_elem?_last l a, named ∙ ap some (str_eq→≡ name other same))
      | inr distinct ↦
          let (n, b, at, held, its_name) =
            there other k (sym (find_there m name other _ distinct) ∙ h) in
          (n, b, at, get_elem?-append l b a n held, its_name)
    ],
    λ n b h. elim (get_elem?_cases l b a n h) [
      | inl old ↦
          let (other, its_name, found) = back n b old in
          (
            other,
            its_name,
            elim (Bool-cases (str_eq name other)) [
              | inl same ↦
                  let wrong = sym fresh ∙ ap (find m) (str_eq→≡ name other same) ∙ found in cc
              | inr distinct ↦ find_there m name other _ distinct ∙ found
            ],
          )
      | inr (last, same) ↦ (
        name,
        ap name_of (sym same) ∙ named,
        find_here m name (place (length l)) ∙ ap (λ i. some (place i)) (sym last),
      )
    ],
  )
