-- ===== src/Budget/Loop.antt =====
-- The compare-and-exchange loop of try_reserve under any interference.
use p.Prelude.{
  ℕ, ◌+◌, ◌≤◌, ◌<◌, ◌≡◌, refl, ◌≢◌, ◌⊎◌, inl, inr, true, false, List, [], ◌∷◌, ◌++◌, arith,
  Bool-cases,
}
use p.Budget.{
  word, Budget, Round, reserved, refused, retrying, no_room, try_reserve_loop, try_reserve, release,
}

-- The values of `used` that the call has seen.
abbrev pub Saw : ℕ → ℕ → List Round → Type 0
Saw v current [] = v ≡ current
Saw v current (r ∷ rs) = (v ≡ current) ⊎ Saw v r.value rs

-- With a cap below 2^64, a reservation adds the request to a value that the loop saw, without
-- overflow, and within the cap, whatever other threads do in between.
pub try_reserve_loop-reserved :
    (max bytes current : ℕ) (rs : List Round) (v w : ℕ)
    → max < word
    → try_reserve_loop max bytes current rs ≡ reserved v w
    → (w ≡ v + bytes) × (w ≤ max) × Saw v current rs
unfolding try_reserve_loop
try_reserve_loop-reserved max bytes current [] v w small e = ground arith
try_reserve_loop-reserved max bytes current (r ∷ rs) v w small e =
    ground (arith, try_reserve_loop-reserved max bytes r.value rs v w small)

-- The loop of try_reserve refuses only because a value that it saw left no room for the request.
pub try_reserve_loop-refused :
    (max bytes current : ℕ) (rs : List Round)
    → try_reserve_loop max bytes current rs ≡ refused
    → (v : ℕ) × Saw v current rs × (max < v + bytes)
unfolding try_reserve_loop
try_reserve_loop-refused max bytes current [] e = (current, refl, ground arith)
try_reserve_loop-refused max bytes current (r ∷ rs) e =
    elim (Bool-cases (no_room max bytes current)) [
      | inl full ↦ (current, inl refl, ground arith)
      | inr room ↦
          let (v, seen, full) = try_reserve_loop-refused max bytes r.value rs (ground arith) in
          (v, inr seen, full)
    ]

-- The loop of try_reserve ends at the latest with two consecutive rounds that meet one value, the
-- second without a spurious failure.
pub try_reserve_loop-ends :
    (max bytes current : ℕ) (before after : List Round) (r s : Round)
    → s.value ≡ r.value
    → s.spurious ≡ false
    → try_reserve_loop max bytes current (before ++ r ∷ s ∷ after) ≢ retrying
unfolding try_reserve_loop
try_reserve_loop-ends max bytes current [] after r s same sure = ground arith
try_reserve_loop-ends max bytes current (b ∷ before) after r s same sure =
    ground (arith, try_reserve_loop-ends max bytes b.value before after r s same sure)

-- With a cap below 2^64, an undisturbed call of try_reserve grants exactly the requests that fit
-- under the cap, and otherwise leaves the budget as it was.
pub try_reserve_lem :
    (b : Budget) (bytes : ℕ)
    → b.max < word
    → ((b.used + bytes ≤ b.max)
        × (try_reserve b bytes ≡ (true, record b { used = b.used + bytes })))
      ⊎ ((b.max < b.used + bytes) × (try_reserve b bytes ≡ (false, b)))
unfolding try_reserve
try_reserve_lem b bytes small = ground arith

-- With a cap below 2^64, releasing what an undisturbed reservation that fits has taken gives the
-- budget back as it was.
pub release-try_reserve :
    (b : Budget) (bytes : ℕ)
    → b.max < word
    → b.used + bytes ≤ b.max
    → release (try_reserve b bytes).1 bytes ≡ b
unfolding try_reserve release
release-try_reserve b bytes small fits = ground arith
