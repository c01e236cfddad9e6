-- ===== src/Examples/Kit.antt =====
-- Concrete instances of the interface of kit, at which the examples run.
use p.Prelude.{
  ℕ, ◌≤◌, ◌≡◌, refl, sym, ap, Bool, true, Option, none, some, List, [], ◌∷◌, ◌++◌, length, take,
  arith, length-append, length-take,
}
use p.Kit.{Lst, visit, Iovec, total_size, gather, FileApi}

abbrev push_last : {A : Type 0} → List A → A → List A
push_last l a = l ++ a ∷ []

abbrev pull_first : {A : Type 0} → List A → Option (A × List A)
pull_first [] = none
pull_first (a ∷ l) = some (a, l)

abbrev cons_pulled : {A : Type 0} → A → Option (A × List A) → Option (A × List A)
cons_pulled a none = some (a, [])
cons_pulled a (some (b, l)) = some (b, a ∷ l)

abbrev pull_last : {A : Type 0} → List A → Option (A × List A)
pull_last [] = none
pull_last (a ∷ l) = cons_pulled a (pull_last l)

abbrev back_or : {A : Type 0} → A → Option A → Option A
back_or a none = some a
back_or a (some b) = some b

abbrev back : {A : Type 0} → List A → Option A
back [] = none
back (a ∷ l) = back_or a (back l)

abbrev set_back : {A : Type 0} → List A → A → List A
set_back [] b = []
set_back (a ∷ []) b = b ∷ []
set_back (a ∷ c ∷ l) b = a ∷ set_back (c ∷ l) b

pub pull_last_append : {A : Type 0} (l : List A) (a : A) → pull_last (l ++ a ∷ []) ≡ some (a, l)
pull_last_append [] a = refl
pull_last_append (b ∷ l) a = ap (cons_pulled b) (pull_last_append l a)

pub back_append : {A : Type 0} (l : List A) (a : A) → back (l ++ a ∷ []) ≡ some a
back_append [] a = refl
back_append (b ∷ l) a = ap (back_or b) (back_append l a)

pub set_back_append : {A : Type 0} (l : List A) (a b : A) → set_back (l ++ a ∷ []) b ≡ l ++ b ∷ []
set_back_append [] a b = refl
set_back_append (c ∷ []) a b = refl
set_back_append (c ∷ d ∷ l) a b = ap (◌∷◌ c) (set_back_append (d ∷ l) a b)

abbrev pub lst : Lst
lst = record {
  size = length;
  push_last = push_last;
  pull_first = pull_first;
  pull_last = pull_last;
  clear = λ f l s. (visit f l s, []);
  back = back;
  set_back = set_back;
  size_counts = λ l. refl;
  push_last_appends = λ l a. refl;
  pull_first_takes = λ l a. refl;
  pull_last_takes = pull_last_append;
  clear_visits = λ f l s. refl;
  back_last = back_append;
  set_back_last = set_back_append;
}

-- A file in memory that sends whatever it is asked to.
pub record MemoryFile : Type 0 where
  pub opened : Bool
  pub bytes : List ℕ

pub length-gather_le : (vs : List Iovec) → length (gather vs) ≤ total_size vs
length-gather_le [] = omega arith
length-gather_le (v ∷ vs) = omega (
  arith,
  length-append (take v.size v.memory) (gather vs),
  length-take v.size v.memory,
  length-gather_le vs,
)

pub take_whole : (bs : List ℕ) → take (length bs) bs ≡ bs
take_whole [] = refl
take_whole (b ∷ bs) = ap (◌∷◌ b) (take_whole bs)

abbrev pub memory_file : FileApi
memory_file = record {
  Handle = MemoryFile;
  open_file = λ f path. (true, record f { opened = true });
  is_open = λ f. f.opened;
  write_v = λ f vs. (length (gather vs), record f { bytes = f.bytes ++ gather vs });
  sync = λ f. f;
  close = λ synced f. f;
  contents = λ f. f.bytes;
  write_v_limit = λ f vs. length-gather_le vs;
  write_v_appends = λ f vs few. ap (◌++◌ f.bytes) (sym (take_whole (gather vs)));
}
