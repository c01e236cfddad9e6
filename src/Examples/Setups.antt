-- ===== src/Examples/Setups.antt =====
-- Sizes of a configuration, read by a parser of digits and a comparison in lower case.
use p.Prelude.{
  if◌then◌else◌, ℕ, ◌+◌, ◌*◌, ◌-◌, ◌≡◌, refl, sym, ap, ◌∙◌, Bool, true, false, ◌&&◌, none, some,
  List, [], ◌∷◌, ◌++◌, ◌==◌, map, arith, inl,
}
use p.Examples.Kit.{lst}
use p.Core.Setup.{
  fold, is_digit, all_digits, starts_with_digit, number, CText, parse_size, size_or,
  init_buffer_pool,
}
use p.Core.Setup.Sizes.{Scale, parse_size_lem}
use p.Core.Setup.Pools.{IsPrepared, init_buffer_pool-IsPrepared}

abbrev read : ℕ → List ℕ → ℕ × List ℕ
read n [] = (n, [])
read n (c ∷ cs) = let more = read (n * 10 + (c - 48)) cs in if is_digit c then more else (n, c ∷ cs)

read-digits :
    (n : ℕ) (ds rest : List ℕ)
    → all_digits ds ≡ true
    → starts_with_digit rest ≡ false
    → read n (ds ++ rest) ≡ (number n ds, rest)
read-digits n [] [] digits apart = refl
read-digits n [] (c ∷ cs) digits apart = ground arith
read-digits n (d ∷ ds) rest digits apart = ground (arith, read-digits (n * 10 + (d - 48)) ds rest)

abbrev same : List ℕ → List ℕ → Bool
same [] [] = true
same [] (b ∷ bs) = false
same (a ∷ cs) [] = false
same (a ∷ cs) (b ∷ bs) = (a == b) && same cs bs

same_refl : (cs : List ℕ) → same cs cs ≡ true
same_refl [] = refl
same_refl (c ∷ cs) = ground (arith, same_refl cs)

same_eq : (cs bs : List ℕ) → same cs bs ≡ true → cs ≡ bs
same_eq [] [] e = refl
same_eq [] (b ∷ bs) e = absurd (cc e)
same_eq (a ∷ cs) [] e = absurd (cc e)
same_eq (a ∷ cs) (b ∷ bs) e = ground (arith, same_eq cs bs)

abbrev text : CText
text = record {
  strtoull = read 0;
  casecmp = λ a b. same (map fold a) (map fold b);
  strtoull_reads = λ d ds rest digits apart small. read-digits 0 (d ∷ ds) rest digits apart;
  casecmp_same = λ a b e. ap (same (map fold a)) (sym e) ∙ same_refl (map fold a);
  casecmp_differs = λ a b e. same_eq (map fold a) (map fold b) e;
}

-- "16 mB"
parse_size_lem_example : parse_size text (49 ∷ 54 ∷ 32 ∷ 109 ∷ 66 ∷ []) ≡ some 16777216
parse_size_lem_example =
    parse_size_lem text 49 (54 ∷ []) (109 ∷ 66 ∷ []) (49 ∷ 54 ∷ 32 ∷ 109 ∷ 66 ∷ []) Scale.mega refl
      (omega arith) (inl refl) refl (omega arith)

sixteen : size_or text 16777216 (some (49 ∷ 54 ∷ 75 ∷ 105 ∷ [])) ≡ some 16384
unfolding size_or
sixteen = refl

default : size_or text 1048576 none ≡ some 1048576
unfolding size_or
default = refl

-- "16Ki", and no size to reserve.
init_buffer_pool-IsPrepared_example :
    IsPrepared 16384 1048576
      (λ i. 4096 + i)
      (init_buffer_pool text lst
        (some (49 ∷ 54 ∷ 75 ∷ 105 ∷ []))
        none
        true
        true
        (λ i. some (4096 + i))
        (λ i. record { next = none; buf = none; done = false; cv = 0 }))
init_buffer_pool-IsPrepared_example =
    init_buffer_pool-IsPrepared text lst (some (49 ∷ 54 ∷ 75 ∷ 105 ∷ [])) none 16384 1048576
      (λ i. 4096 + i) (λ i. record { next = none; buf = none; done = false; cv = 0 }) sixteen
      default (omega arith)
