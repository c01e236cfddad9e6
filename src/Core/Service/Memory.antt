-- ===== src/Core/Service/Memory.antt =====
-- What the copies into a buffer leave in it.
use p.Prelude.{
  ℕ, zero, suc, ◌+◌, ◌-◌, ◌≤◌, ◌≡◌, refl, ap, ◌∙◌, List, [], ◌∷◌, ◌++◌, length, take, replicate,
  arith,
}
use p.Core.Service.{copy, overwrite}
use p.Core.Service.Entries.{padded_to}

length-copy : (bytes memory : List ℕ) → length (copy bytes memory) ≡ length memory
length-copy [] memory = refl
length-copy (b ∷ bytes) [] = refl
length-copy (b ∷ bytes) (m ∷ memory) = ap suc (length-copy bytes memory)

pub length-overwrite :
    (at : ℕ) (bytes memory : List ℕ) → length (overwrite at bytes memory) ≡ length memory
length-overwrite zero bytes memory = length-copy bytes memory
length-overwrite (suc at) bytes [] = refl
length-overwrite (suc at) bytes (m ∷ memory) = ap suc (length-overwrite at bytes memory)

take-copy_zeros :
    (n : ℕ) (memory : List ℕ)
    → n ≤ length memory
    → take n (copy (replicate n 0) memory) ≡ replicate n 0
take-copy_zeros zero memory h = refl
take-copy_zeros (suc n) [] h = absurd (omega arith)
take-copy_zeros (suc n) (m ∷ memory) h = ap (◌∷◌ 0) (take-copy_zeros n memory (omega arith))

take-copy :
    (n : ℕ) (bytes memory : List ℕ)
    → n ≤ length memory
    → length bytes ≤ n
    → take n (copy bytes (copy (replicate n 0) memory)) ≡ padded_to n bytes
take-copy n [] memory h few =
    let all : n ≡ n - 0 = omega arith in take-copy_zeros n memory h ∙ ap (λ k. replicate k 0) all
take-copy zero (b ∷ bytes) memory h few = absurd (omega arith)
take-copy (suc n) (b ∷ bytes) [] h few = absurd (omega arith)
take-copy (suc n) (b ∷ bytes) (m ∷ memory) h few =
    let less : n - length bytes ≡ suc n - length (b ∷ bytes) = omega arith in
    ap (◌∷◌ b) (take-copy n bytes memory (omega arith) (omega arith))
    ∙ ap (λ k. b ∷ bytes ++ replicate k 0) less

-- A place of a memory that is zeroed and then written to holds the bytes and zeros after them, and
-- what stands before it is kept.
pub take-overwrite :
    (at n : ℕ) (bytes memory : List ℕ)
    → at + n ≤ length memory
    → length bytes ≤ n
    → take (at + n) (overwrite at bytes (overwrite at (replicate n 0) memory))
      ≡ take at memory ++ padded_to n bytes
take-overwrite zero n bytes memory h few =
    let same : 0 + n ≡ n = omega arith in
    ap (λ k. take k (copy bytes (copy (replicate n 0) memory))) same
    ∙ take-copy n bytes memory (omega arith) few
take-overwrite (suc at) n bytes [] h few = absurd (omega arith)
take-overwrite (suc at) n bytes (m ∷ memory) h few =
    let next : suc at + n ≡ suc (at + n) = omega arith in
    ap (λ k. take k (m ∷ overwrite at bytes (overwrite at (replicate n 0) memory))) next
    ∙ ap (◌∷◌ m) (take-overwrite at n bytes memory (omega arith) few)
