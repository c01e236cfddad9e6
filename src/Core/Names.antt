-- ===== src/Core/Names.antt =====
-- What the registries share: null-terminated strings and maps keyed by them.
pub mod Index
use p.Prelude.{ℕ, Bool, true, false, ◌&&◌, Option, none, some, List, [], ◌∷◌, ◌==◌, if◌then◌else◌}
use p.Core.Descriptor.{Str}

-- strcmp(a, b) == 0
abbrev pub str_eq : Str → Str → Bool
str_eq [] [] = true
str_eq [] (d ∷ b) = false
str_eq (c ∷ a) [] = false
str_eq (c ∷ a) (d ∷ b) = (c == d) && str_eq a b

-- is_str_equal
abbrev pub is_str_equal : Option Str → Option Str → Bool
is_str_equal none none = true
is_str_equal none (some b) = false
is_str_equal (some a) none = false
is_str_equal (some a) (some b) = str_eq a b

-- The string of a pointer that is neither null nor of an empty string.
abbrev pub given_name : Option Str → Option Str
given_name none = none
given_name (some []) = none
given_name (some (c ∷ s)) = some (c ∷ s)

-- std::unordered_map::find on the entries of a map, the latest first.
abbrev pub find {ℓ} : {A : Type ℓ} → List (Str × A) → Str → Option A
find [] name = none
find (entry ∷ entries) name = if str_eq entry.0 name then some entry.1 else find entries name

-- The result is there and is so.
abbrev pub Returns {ℓ} : {A : Type ℓ} → Option A → (A → Type 0) → Type 0
Returns none P = ⊥
Returns (some a) P = P a
