-- ===== src/Core/Setup.antt =====
-- engine/p8_core.cpp, parse_size and init_buffer_pool: the sizes in the configuration, and the budget and
-- the pool that they set up, on a platform whose size_t has 64 bits. The number parser of the C
-- library and str_casecmp of kit are parameters.
pub mod Sizes
pub mod Pools
use p.Prelude.{
  ℕ, zero, suc, ◌+◌, ◌-◌, ◌*◌, ◌/◌, ◌%◌, ◌^◌, ◌<◌, ◌≡◌, Bool, true, false, not, ◌&&◌, ◌||◌, Option,
  none, some, List, [], ◌∷◌, ◌++◌, ltb, leb, ◌==◌, if◌then◌else◌, length, map,
}
use p.Kit.{Lst}
use p.Budget
use p.Budget.{word}
use p.Pool
use p.Pool.{Waiter, Pool}

-- A letter of ASCII in lower case, every other byte as it is.
abbrev pub fold : ℕ → ℕ
fold c = if leb 65 c && leb c 90 then c + 32 else c

abbrev pub is_digit : ℕ → Bool
is_digit c = leb 48 c && leb c 57

abbrev pub all_digits : List ℕ → Bool
all_digits [] = true
all_digits (d ∷ ds) = is_digit d && all_digits ds

abbrev pub starts_with_digit : List ℕ → Bool
starts_with_digit [] = false
starts_with_digit (c ∷ cs) = is_digit c

-- The number that digits spell behind others that spell `n`.
abbrev pub number : ℕ → List ℕ → ℕ
number n [] = n
number n (d ∷ ds) = number (n * 10 + (d - 48)) ds

-- `strtoull` has base 10 and returns the value and the text from the end pointer on; `casecmp` is
-- whether str_casecmp returns 0.
pub record CText : Type 0 where
  pub strtoull : List ℕ → ℕ × List ℕ
  pub casecmp : List ℕ → List ℕ → Bool
  pub strtoull_reads :
      (d : ℕ) (ds rest : List ℕ)
      → all_digits (d ∷ ds) ≡ true
      → starts_with_digit rest ≡ false
      → number 0 (d ∷ ds) < word
      → strtoull ((d ∷ ds) ++ rest) ≡ (number 0 (d ∷ ds), rest)
  pub casecmp_same : (a b : List ℕ) → map fold a ≡ map fold b → casecmp a b ≡ true
  pub casecmp_differs : (a b : List ℕ) → casecmp a b ≡ true → map fold a ≡ map fold b

-- A space or a tab.
abbrev pub is_blank : ℕ → Bool
is_blank c = (c == 32) || (c == 9)

-- The text without blanks, in the `left` bytes of la_buf.
unfoldable pub squeeze : ℕ → List ℕ → List ℕ
squeeze left [] = []
squeeze left (c ∷ cs) =
    let rest = squeeze (if is_blank c then left else left - 1) cs in
    if left == 0 then [] else if is_blank c then rest else c ∷ rest

abbrev pub infinite : List ℕ
infinite = 105 ∷ 110 ∷ 102 ∷ 105 ∷ 110 ∷ 105 ∷ 116 ∷ 101 ∷ []

abbrev pub kb : List ℕ
kb = 75 ∷ 66 ∷ []

abbrev pub ki : List ℕ
ki = 75 ∷ 105 ∷ []

abbrev pub mb : List ℕ
mb = 77 ∷ 66 ∷ []

abbrev pub mi : List ℕ
mi = 77 ∷ 105 ∷ []

-- mz_data_buffer_size
abbrev pub data_buffer_size : ℕ
data_buffer_size = 8192

-- The answers of `new` from round i on.
abbrev pub rounds {ℓ} : {A : Type ℓ} → (ℕ → A) → ℕ → ℕ → List A
rounds memory i zero = []
rounds memory i (suc n) = memory i ∷ rounds memory (i + 1) n

-- init_buffer_pool from the two sizes on, where both could be read.
unfoldable pub set_up :
    Lst → Bool → Bool → (ℕ → Option ℕ) → (ℕ → Waiter) → Option ℕ → Option ℕ → Option Pool
unfolding Budget.create Pool.create Pool.init
set_up K budget_made pool_made memory nodes none initial = none
set_up K budget_made pool_made memory nodes (some max) none = none
set_up K budget_made pool_made memory nodes (some max) (some initial) =
    let count = (if ltb max initial then max else initial) / data_buffer_size in
    let pool = Pool.create data_buffer_size (some (Budget.create max)) nodes in
    if not budget_made || ltb (2 * 2 ^ 16) data_buffer_size || not pool_made
    then none
    else some (Pool.init K (rounds memory 0 count) pool).1

module _ (T : CText) where
  -- The number by the text behind it.
  unfoldable pub scaled : ℕ → List ℕ → Option ℕ
  scaled v [] = some v
  scaled v (c ∷ cs) =
      if T.casecmp (c ∷ cs) kb || T.casecmp (c ∷ cs) ki
      then some (v * 1024 % word)
      else if T.casecmp (c ∷ cs) mb || T.casecmp (c ∷ cs) mi
      then some (v * 1024 % word * 1024 % word)
      else none

  -- The result is none where the code returns false.
  unfoldable pub parse_size : List ℕ → Option ℕ
  unfolding squeeze scaled
  parse_size text =
      let buf = squeeze 127 text in
      let (v, rest) = T.strtoull buf in
      if T.casecmp buf infinite
      then some (word - 1)
      else if length rest == length buf
      then none
      else scaled v rest

  -- A size of the configuration, or its default.
  unfoldable pub size_or : ℕ → Option (List ℕ) → Option ℕ
  unfolding parse_size
  size_or default none = some default
  size_or default (some text) = parse_size text

  -- The pool with its budget, where the function returns true; else neither is left. `budget_made`
  -- and `pool_made` are whether make_shared and new answer, `memory i` what new answers in round i
  -- of the pool's init.
  unfoldable pub init_buffer_pool :
      Lst
      → Option (List ℕ)
      → Option (List ℕ)
      → Bool
      → Bool
      → (ℕ → Option ℕ)
      → (ℕ → Waiter)
      → Option Pool
  unfolding size_or set_up
  init_buffer_pool K max_text initial_text budget_made pool_made memory nodes =
      set_up K budget_made pool_made memory nodes (size_or (16 * (1024 * 1024)) max_text)
        (size_or (1024 * 1024) initial_text)
