-- ===== src/Kit.antt =====
-- The interface of kit, the companion library that the build fetches (dep/CMakeLists.txt): the
-- container kit::c_lst, whose state is represented by the sequence of its elements in iteration
-- order; `set_back` is a store through
-- the reference that back() returns. The operations are parameters; the laws are what the engine relies on.
use p.Prelude.{ℕ, ◌+◌, ◌≤◌, ◌≡◌, Bool, Option, some, List, ◌∷◌, ◌++◌, [], length, take}

-- The state after f has visited every element, first to last.
abbrev pub visit {ℓ κ} : {A : Type ℓ} {S : Type κ} → (A → S → S) → List A → S → S
visit f [] s = s
visit f (a ∷ l) s = visit f l (f a s)

pub record Lst : Type 1 where
  pub size : {A : Type 0} → List A → ℕ
  pub push_last : {A : Type 0} → List A → A → List A
  pub pull_first : {A : Type 0} → List A → Option (A × List A)
  pub pull_last : {A : Type 0} → List A → Option (A × List A)
  pub back : {A : Type 0} → List A → Option A
  pub set_back : {A : Type 0} → List A → A → List A
  pub size_counts : {A : Type 0} (l : List A) → size l ≡ length l
  pub push_last_appends : {A : Type 0} (l : List A) (a : A) → push_last l a ≡ l ++ a ∷ []
  pub pull_first_takes : {A : Type 0} (l : List A) (a : A) → pull_first (a ∷ l) ≡ some (a, l)
  pub pull_last_takes : {A : Type 0} (l : List A) (a : A) → pull_last (l ++ a ∷ []) ≡ some (a, l)
  pub back_last : {A : Type 0} (l : List A) (a : A) → back (l ++ a ∷ []) ≡ some a
  pub set_back_last : {A : Type 0} (l : List A) (a b : A) → set_back (l ++ a ∷ []) b ≡ l ++ b ∷ []
  pub clear : {A S : Type 0} → (A → S → S) → List A → S → S × List A
  pub clear_visits :
      {A S : Type 0} (f : A → S → S) (l : List A) (s : S) → clear f l s ≡ (visit f l s, [])

-- One entry of a scatter/gather write (kit::s_iovec): memory and the number of its bytes to send.
pub record Iovec : Type 0 where
  pub memory : List ℕ
  pub size : ℕ

abbrev pub total_size : List Iovec → ℕ
total_size [] = 0
total_size (v ∷ vs) = v.size + total_size vs

-- The bytes that a list of entries sends, in order.
abbrev pub gather : List Iovec → List ℕ
gather [] = []
gather (v ∷ vs) = take v.size v.memory ++ gather vs

-- The most entries that one write_v takes (IOV_MAX).
abbrev pub iov_max : ℕ
iov_max = 1024

-- kit::c_file: a file handle. A path is the list of its components. `contents` is what the file holds. A write reports how many bytes it
-- sent; a call with at most iov_max entries whose memory is there appends that many of their bytes.
pub record FileApi : Type 1 where
  pub Handle : Type 0
  pub open_file : Handle → List (List ℕ) → Bool × Handle
  pub is_open : Handle → Bool
  pub write_v : Handle → List Iovec → ℕ × Handle
  pub sync : Handle → Handle
  pub close : Bool → Handle → Handle
  pub contents : Handle → List ℕ
  pub write_v_limit : (f : Handle) (vs : List Iovec) → (write_v f vs).0 ≤ total_size vs
  pub write_v_appends :
      (f : Handle) (vs : List Iovec)
      → length vs ≤ iov_max
      → contents (write_v f vs).1 ≡ contents f ++ take (write_v f vs).0 (gather vs)
