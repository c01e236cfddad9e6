-- ===== src/Log/Growth.antt =====
-- The fields of a record as they are sent, and how a step of send extends the record.
use p.Prelude.{ℕ, ◌+◌, ◌<◌, ◌≡◌, true, false, Option, none, List, [], ◌∷◌, ◌++◌, ◌==◌, length}
use p.Format.{Varg, arg_double, arg_ldouble}
use p.Core.Descriptor.{Str}
use p.Core.LogDescs.{is_string}
use p.Core.Service.{little_endian}
use p.Writer.{Fragment, Writer}
use p.Writer.Trace.{IsWriting}
use p.Log.{
  Arg, string, integer, double, long_double, Item, Step, unreadable, discarded, stepped, ◌>>=◌,
  Part, in_args, in_attrs, cut,
}

-- A string as it is sent: its length in two bytes, then its bytes.
abbrev pub string_bytes : Option Str → List ℕ
string_bytes o = little_endian 2 (length (cut o)) ++ cut o

abbrev pub arg_bytes : Arg → List ℕ
arg_bytes (string o) = string_bytes o
arg_bytes (integer n) = little_endian 8 n
arg_bytes (double n) = little_endian 8 n
arg_bytes (long_double bytes) = bytes

abbrev pub args_bytes : List Varg → List Arg → List ℕ
args_bytes [] args = []
args_bytes (v ∷ vs) [] = []
args_bytes (v ∷ vs) (a ∷ args) = arg_bytes a ++ args_bytes vs args

-- The argument is of the type that the entry of the format describes.
abbrev pub IsOfType : Varg → Arg → Type 0
IsOfType v (string o) = is_string v ≡ true
IsOfType v (integer n) =
    (is_string v ≡ false) × ((v.size == 8) ≡ true) × ((v.type == arg_double) ≡ false)
IsOfType v (double n) =
    (is_string v ≡ false) × ((v.size == 8) ≡ true) × ((v.type == arg_double) ≡ true)
IsOfType v (long_double bytes) =
    (is_string v ≡ false)
    × ((v.size == 8) ≡ false)
    × ((v.type == arg_ldouble) ≡ true)
    × ((length bytes == v.size) ≡ true)
    × (v.size < 256)

abbrev pub AreOfTypes : List Varg → List Arg → Type 0
AreOfTypes [] args = Unit {0}
AreOfTypes (v ∷ vs) [] = ⊥
AreOfTypes (v ∷ vs) (a ∷ args) = IsOfType v a × AreOfTypes vs args

module _ (P : List ℕ → Writer → Type 0) where
  -- A step appended t and reached a state of R, or gave up with no buffer.
  abbrev pub Grew : List ℕ → (Item → Type 0) → Step → Type 0
  Grew t R unreadable = ⊥
  Grew t R (discarded i) = ((s : List ℕ) × P s i.writer) × (i.writer.buffer ≡ none)
  Grew t R (stepped i) = P t i.writer × R i × ((b : Fragment) × IsWriting i.writer b)

  pub Grew->>= :
      (s t : List ℕ) (Q R : Item → Type 0) (m : Step) (f : Item → Step)
      → Grew s Q m
      → ((i : Item) (b : Fragment) → P s i.writer → Q i → IsWriting i.writer b → Grew t R (f i))
      → Grew t R (m >>= f)
  Grew->>= s t Q R unreadable f held next = held
  Grew->>= s t Q R (discarded i) f held next = held
  Grew->>= s t Q R (stepped i) f (held, q, (b, writing)) next = next i b held q writing

  pub Grew-weaken :
      (t : List ℕ) (Q R : Item → Type 0) (m : Step)
      → Grew t Q m
      → ((i : Item) → Q i → R i)
      → Grew t R m
  Grew-weaken t Q R unreadable held weaker = held
  Grew-weaken t Q R (discarded i) held weaker = held
  Grew-weaken t Q R (stepped i) (held, q, going) weaker = (held, weaker i q, going)

-- From s to i, a part of the record grew by n bytes, and nothing else changed but the writer.
abbrev pub HasWritten : Part → ℕ → Item → Item → Type 0
HasWritten in_args n s i =
    (i.args_size ≡ s.args_size + n)
    × (i.attrs_size ≡ s.attrs_size)
    × (i.attrs_count ≡ s.attrs_count)
    × (i.cache ≡ s.cache)
HasWritten in_attrs n s i =
    (i.args_size ≡ s.args_size)
    × (i.attrs_size ≡ s.attrs_size + n)
    × (i.attrs_count ≡ s.attrs_count)
    × (i.cache ≡ s.cache)
