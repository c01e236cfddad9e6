-- ===== src/Budget.antt =====
-- engine/p8_memory_budget.hpp and p8_memory_budget.cpp: the cap on the memory of the pools.
pub mod Loop
pub mod Shared
use p.Prelude.{
  ℕ, ◌+◌, ◌-◌, ◌%◌, ◌^◌, Bool, true, false, not, ◌&&◌, ◌||◌, List, [], ◌∷◌, ltb, ◌==◌,
  if◌then◌else◌,
}

-- size_t
abbrev pub word : ℕ
word = 2 ^ 64

pub record Budget : Type 0 where
  pub used : ℕ
  pub max : ℕ

unfoldable pub create : ℕ → Budget
create max_bytes = record { used = 0; max = max_bytes }

-- What one compare_exchange_weak of the loop meets: the value of `used` at that instant, which
-- other threads may have changed since it was read, and whether it fails for no reason.
pub record Round : Type 0 where
  pub value : ℕ
  pub spurious : Bool

-- `reserved v w`: the exchange replaced v by w and the call returned true. `refused`: it returned
-- false and wrote nothing. `retrying`: the schedule ended before the loop did.
pub data Outcome : Type 0 where
  reserved : ℕ → ℕ → Outcome
  refused : Outcome
  retrying : Outcome

unfoldable pub no_room : ℕ → ℕ → ℕ → Bool
no_room max bytes current = ltb max current || ltb (max - current) bytes

unfoldable pub try_reserve_loop : ℕ → ℕ → ℕ → List Round → Outcome
unfolding no_room
try_reserve_loop max bytes current [] = if no_room max bytes current then refused else retrying
try_reserve_loop max bytes current (r ∷ rs) =
    let again = try_reserve_loop max bytes r.value rs in
    if no_room max bytes current
    then refused
    else if not r.spurious && (r.value == current)
    then reserved current ((current + bytes) % word)
    else again

abbrev pub apply : Budget → Outcome → Bool × Budget
apply b (reserved v w) = (true, record b { used = w })
apply b refused = (false, b)
apply b retrying = (false, b)

-- A call that no other thread disturbs: its first exchange meets the value that was read.
unfoldable pub try_reserve : Budget → ℕ → Bool × Budget
unfolding try_reserve_loop
try_reserve b bytes =
    apply b (try_reserve_loop b.max bytes b.used (record { value = b.used; spurious = false } ∷ []))

unfoldable pub release : Budget → ℕ → Budget
release b bytes = record b { used = (b.used + word - bytes) % word }
