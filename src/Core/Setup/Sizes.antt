-- ===== src/Core/Setup/Sizes.antt =====
-- What parse_size of engine/p8_core.cpp reads.
use p.Prelude.{
  ◌-◌, ◌≢◌, ◌-◌, ◌≢◌, ℕ, ◌*◌, ◌%◌, ◌≤◌, ◌<◌, ◌≡◌, refl, sym, ap, ◌∙◌, ◌⊎◌, inl, inr, true, false,
  some, List, [], ◌∷◌, ◌++◌, ◌==◌, if◌then◌else◌, length, length-append, map, arith, Bool-cases,
}
use p.Budget.{word}
use p.Core.Setup.{
  fold, is_digit, all_digits, starts_with_digit, number, CText, is_blank, squeeze, infinite, kb, ki,
  mb, mi, scaled, parse_size,
}

-- The units of a size, and how they are spelled, in upper or lower case.
pub data Scale : Type 0 where
  bytes : Scale
  kilo : Scale
  mega : Scale

abbrev pub factor : Scale → ℕ
factor Scale.bytes = 1
factor Scale.kilo = 1024
factor Scale.mega = 1048576

abbrev pub IsSpelled : Scale → List ℕ → Type 0
IsSpelled Scale.bytes unit = unit ≡ []
IsSpelled Scale.kilo unit = (map fold unit ≡ map fold kb) ⊎ (map fold unit ≡ map fold ki)
IsSpelled Scale.mega unit = (map fold unit ≡ map fold mb) ⊎ (map fold unit ≡ map fold mi)

-- A text without its blanks.
abbrev pub visible : List ℕ → List ℕ
visible [] = []
visible (c ∷ cs) = if is_blank c then visible cs else c ∷ visible cs

abbrev first : List ℕ → ℕ
first [] = 0
first (c ∷ cs) = c

abbrev second : List ℕ → ℕ
second [] = 0
second (c ∷ cs) = first cs

-- The two products by 1024, each reduced, are the one by their product.
twice : (v : ℕ) → v * 1024 % word * 1024 % word ≡ v * 1048576 % word
twice v = omega arith

-- A unit does not go on with the number before it.
spelled-apart :
    (scale : Scale) (unit : List ℕ) → IsSpelled scale unit → starts_with_digit unit ≡ false
spelled-apart scale [] spelled = refl
spelled-apart Scale.bytes (c ∷ cs) spelled = absurd (cc spelled)
spelled-apart Scale.kilo (c ∷ cs) (inl e) = ground (arith, ap first e)
spelled-apart Scale.kilo (c ∷ cs) (inr e) = ground (arith, ap first e)
spelled-apart Scale.mega (c ∷ cs) (inl e) = ground (arith, ap first e)
spelled-apart Scale.mega (c ∷ cs) (inr e) = ground (arith, ap first e)

nothing : (cs : List ℕ) → length cs ≤ 0 → cs ≡ []
nothing [] none_left = refl
nothing (c ∷ cs) none_left = absurd (omega arith)

squeeze_lem :
    (left : ℕ) (text : List ℕ) → length (visible text) ≤ left → squeeze left text ≡ visible text
unfolding squeeze
squeeze_lem left [] room = refl
squeeze_lem left (c ∷ cs) room =
    ground (arith, squeeze_lem left cs, squeeze_lem (left - 1) cs, nothing (visible (c ∷ cs)), room)

module _ (T : CText) where
  casecmp-apart : (a b : List ℕ) → map fold a ≢ map fold b → T.casecmp a b ≡ false
  casecmp-apart a b apart = elim (Bool-cases (T.casecmp a b)) [
    | inl e ↦ absurd (apart (T.casecmp_differs a b e))
    | inr e ↦ e
  ]

  scaled_lem :
      (v : ℕ) (scale : Scale) (unit : List ℕ)
      → v < word
      → IsSpelled scale unit
      → scaled T v unit ≡ some (v * factor scale % word)
  unfolding scaled
  scaled_lem v Scale.bytes [] small spelled = ap some (omega arith)
  scaled_lem v Scale.bytes (c ∷ cs) small spelled = absurd (cc spelled)
  scaled_lem v Scale.kilo [] small (inl e) = absurd (cc e)
  scaled_lem v Scale.kilo [] small (inr e) = absurd (cc e)
  scaled_lem v Scale.mega [] small (inl e) = absurd (cc e)
  scaled_lem v Scale.mega [] small (inr e) = absurd (cc e)
  scaled_lem v Scale.kilo (c ∷ cs) small (inl e) = ground (arith, T.casecmp_same (c ∷ cs) kb e)
  scaled_lem v Scale.kilo (c ∷ cs) small (inr e) = ground (
    arith,
    T.casecmp_same (c ∷ cs) ki e,
    casecmp-apart (c ∷ cs) kb (λ k. omega (arith, ap second (sym e ∙ k))),
  )
  scaled_lem v Scale.mega (c ∷ cs) small (inl e) = ground (
    arith,
    casecmp-apart (c ∷ cs) kb (λ k. omega (arith, ap first (sym e ∙ k))),
    casecmp-apart (c ∷ cs) ki (λ k. omega (arith, ap first (sym e ∙ k))),
    T.casecmp_same (c ∷ cs) mb e,
    twice v,
  )
  scaled_lem v Scale.mega (c ∷ cs) small (inr e) = ground (
    arith,
    casecmp-apart (c ∷ cs) kb (λ k. omega (arith, ap first (sym e ∙ k))),
    casecmp-apart (c ∷ cs) ki (λ k. omega (arith, ap first (sym e ∙ k))),
    T.casecmp_same (c ∷ cs) mi e,
    casecmp-apart (c ∷ cs) mb (λ k. omega (arith, ap second (sym e ∙ k))),
    twice v,
  )

  -- A size written as decimal digits that spell a number below 2^64, followed by no unit, by KB or
  -- Ki, or by MB or Mi, in upper or lower case and with blanks anywhere, of at most 127 bytes
  -- without the blanks, is read as that number times 1, 1024 or 1048576, modulo 2^64.
  pub parse_size_lem :
      (d : ℕ) (ds unit text : List ℕ) (scale : Scale)
      → all_digits (d ∷ ds) ≡ true
      → number 0 (d ∷ ds) < word
      → IsSpelled scale unit
      → visible text ≡ (d ∷ ds) ++ unit
      → length (visible text) ≤ 127
      → parse_size T text ≡ some (number 0 (d ∷ ds) * factor scale % word)
  unfolding parse_size
  parse_size_lem d ds unit text scale digits small spelled shown room =
      let buf : squeeze 127 text ≡ (d ∷ ds) ++ unit = squeeze_lem 127 text room ∙ shown in
      let read : T.strtoull (squeeze 127 text) ≡ (number 0 (d ∷ ds), unit) =
        ap T.strtoull buf
        ∙ T.strtoull_reads d ds unit digits (spelled-apart scale unit spelled) small in
      let is_digit_first : is_digit d ≡ true = ground (arith, digits) in
      let finite : T.casecmp (squeeze 127 text) infinite ≡ false =
        casecmp-apart (squeeze 127 text) infinite
          (λ k. ground (arith, is_digit_first, ap first (sym (ap (map fold) buf) ∙ k))) in
      let shorter : (length (T.strtoull (squeeze 127 text)).1 == length (squeeze 127 text))
          ≡ false =
        ground (
          arith,
          ap (λ (r : ℕ × List ℕ). length r.1) read,
          ap length buf,
          length-append (d ∷ ds) unit,
        ) in
      ground (
        arith,
        finite,
        shorter,
        ap (λ (r : ℕ × List ℕ). scaled T r.0 r.1) read
            ∙ scaled_lem (number 0 (d ∷ ds)) scale unit small spelled,
      )
