-- ===== src/Budget/Shared.antt =====
-- The budget that several threads share: reachability over their interleaved calls.
use p.Prelude.{ℕ, ◌+◌, ◌≤◌, ◌<◌, ◌≡◌, refl, List, [], ◌∷◌, ◌++◌, arith}
use p.Budget.{word, Budget, Round, reserved, try_reserve_loop, create, release}
use p.Budget.Loop.{try_reserve_loop-reserved}

-- `held` lists the reservations that were granted and not yet given back.
pub record Shared : Type 0 where
  pub budget : Budget
  pub held : List ℕ

abbrev pub total : List ℕ → ℕ
total [] = 0
total (x ∷ xs) = x + total xs

total-append : (xs ys : List ℕ) → total (xs ++ ys) ≡ total xs + total ys
total-append [] ys = omega arith
total-append (x ∷ xs) ys = omega (arith, total-append xs ys)

-- A thread's exchange succeeds on the value that `used` has then, whatever it read before; or a
-- thread gives back one of the reservations.
pub data Step (s t : Shared) : Type 0 where
  reserve :
      (bytes current : ℕ) (rs : List Round) (w : ℕ)
      → try_reserve_loop s.budget.max bytes current rs ≡ reserved s.budget.used w
      → t ≡ record { budget = record { used = w; max = s.budget.max }; held = bytes ∷ s.held }
      → Step s t
  give_back :
      (before after : List ℕ) (bytes : ℕ)
      → s.held ≡ before ++ bytes ∷ after
      → t ≡ record { budget = release s.budget bytes; held = before ++ after }
      → Step s t

pub data Reach (s : Shared) : Shared → Type 0 where
  here : Reach s s
  next : {t u : Shared} → Reach s t → Step t u → Reach s u

pub record IsCapped (s : Shared) : Type 0 where
  pub small : s.budget.max < word
  pub counted : s.budget.used ≡ total s.held
  pub capped : s.budget.used ≤ s.budget.max

Step-IsCapped : {s t : Shared} → Step s t → IsCapped s → IsCapped t
unfolding release
Step-IsCapped {s} (reserve bytes current rs w e f) h =
    ground
      (arith, try_reserve_loop-reserved s.budget.max bytes current rs s.budget.used w h.small e)
Step-IsCapped {s} (give_back before after bytes e f) h =
    ground (arith, total-append before (bytes ∷ after), total-append before after)

-- However the calls of try_reserve and release of several threads interleave on a fresh budget
-- with a cap below 2^64, the used bytes are those of the reservations that are out, and never
-- exceed the cap.
pub Reach-IsCapped :
    (max : ℕ) {s : Shared}
    → max < word
    → Reach (record { budget = create max; held = [] }) s
    → IsCapped s
unfolding create
Reach-IsCapped max small here = record { small = small; counted = refl; capped = omega arith }
Reach-IsCapped max small (next r st) = Step-IsCapped st (Reach-IsCapped max small r)
