-- ===== src/Pool/Acquire.antt =====
-- acquire_no_lock by cases: the free list, the cap and the allocator.
use p.Prelude.{
  ℕ, ◌+◌, ◌<◌, ◌≡◌, refl, inl, inr, true, false, Option, none, some, List, [], ◌∷◌, ◌++◌, arith,
  leb, if◌then◌else◌,
}
use p.Kit.{Lst}
use p.Budget
use p.Budget.{Budget, word}
use p.Budget.Loop.{try_reserve_lem, release-try_reserve}
use p.Pool.{Pool, acquire_no_lock}

-- The budget after one more buffer, if it fits.
abbrev pub charge : ℕ → Option Budget → Option (Option Budget)
charge size none = some none
charge size (some b) =
    if leb (b.used + size) b.max then some (some (record b { used = b.used + size })) else none

abbrev pub add_new : Pool → Option (Option Budget) → Option ℕ → Option ℕ × Pool
add_new p none answer = (none, p)
add_new p (some budget) none = (none, p)
add_new p (some budget) (some a) = (some a, record p { all = p.all ++ a ∷ []; budget = budget })

abbrev pub hand_out : Option ℕ → Pool → List ℕ → Option ℕ × Pool
hand_out answer p [] = add_new p (charge p.buffer_size p.budget) answer
hand_out answer p (b ∷ rest) = (some b, record p { free = rest })

abbrev pub IsSmall : Option Budget → Type 0
IsSmall none = Unit
IsSmall (some b) = b.max < word

module _ (K : Lst) (p : Pool) where
  acquire-free :
      (answer : Option ℕ) (b : ℕ) (rest : List ℕ)
      → p.free ≡ b ∷ rest
      → acquire_no_lock K answer p ≡ (some b, record p { free = rest })
  unfolding acquire_no_lock
  acquire-free answer b rest e = ground (arith, K.size_counts p.free, K.pull_first_takes rest b)

  acquire-unlimited :
      (answer : Option ℕ)
      → p.free ≡ []
      → p.budget ≡ none
      → acquire_no_lock K answer p ≡ add_new p (some none) answer
  unfolding acquire_no_lock
  acquire-unlimited none e f = ground (arith, K.size_counts p.free)
  acquire-unlimited (some a) e f = ground (
    arith,
    K.size_counts p.free,
    K.push_last_appends p.free a,
    K.push_last_appends p.all a,
    K.pull_first_takes [] a,
  )

  acquire-full :
      (answer : Option ℕ) (b : Budget)
      → p.free ≡ []
      → p.budget ≡ some b
      → Budget.try_reserve b p.buffer_size ≡ (false, b)
      → acquire_no_lock K answer p ≡ (none, p)
  unfolding acquire_no_lock
  acquire-full answer b e f g = ground (arith, K.size_counts p.free)

  acquire-granted :
      (answer : Option ℕ) (b c : Budget)
      → p.free ≡ []
      → p.budget ≡ some b
      → Budget.try_reserve b p.buffer_size ≡ (true, c)
      → Budget.release c p.buffer_size ≡ b
      → acquire_no_lock K answer p ≡ add_new p (some (some c)) answer
  unfolding acquire_no_lock
  acquire-granted none b c e f g h = ground (arith, K.size_counts p.free)
  acquire-granted (some a) b c e f g h = ground (
    arith,
    K.size_counts p.free,
    K.push_last_appends p.free a,
    K.push_last_appends p.all a,
    K.pull_first_takes [] a,
  )

  acquire-limited :
      (answer : Option ℕ) (b : Budget)
      → b.max < word
      → p.free ≡ []
      → p.budget ≡ some b
      → acquire_no_lock K answer p ≡ add_new p (charge p.buffer_size (some b)) answer
  acquire-limited answer b small e f = elim (try_reserve_lem b p.buffer_size small) [
    | inl (fits, g) ↦
        let undo = release-try_reserve b p.buffer_size small fits in
        ground (
          arith,
          g,
          undo,
          acquire-granted answer b (record b { used = b.used + p.buffer_size }) e f g,
        )
    | inr (over, g) ↦ ground (arith, acquire-full answer b e f g)
  ]

-- With a cap below 2^64, acquire_no_lock takes the oldest free buffer; with none free it gets a
-- new one exactly if the cap has room for it and the allocator answers, and otherwise nothing
-- changes.
pub acquire_no_lock_lem :
    (K : Lst) (p : Pool) (answer : Option ℕ)
    → IsSmall p.budget
    → acquire_no_lock K answer p ≡ hand_out answer p p.free
acquire_no_lock_lem K p answer small = go p.free p.budget refl refl
  where
    go :
        (free : List ℕ) (budget : Option Budget)
        → p.free ≡ free
        → p.budget ≡ budget
        → acquire_no_lock K answer p ≡ hand_out answer p p.free
    go (b ∷ rest) budget e f = ground (arith, acquire-free K p answer b rest e)
    go [] none e f = ground (arith, acquire-unlimited K p answer e f)
    go [] (some b) e f = ground (arith, acquire-limited K p answer b (ground arith) e f)
