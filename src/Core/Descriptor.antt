-- ===== src/Core/Descriptor.antt =====
-- The descriptors that the core keeps for its lifetime: s_p8_attr_desc (engine/p8_core.hpp),
-- s_p8_log_desc and s_p8_log_mod (engine/p8_log.hpp), s_p8_mtk_desc (engine/p8_mtk.hpp). A C string
-- is the list of its bytes without the terminator, absent where the pointer is null.
use p.Prelude.{ℕ, ◌-◌, ◌%◌, ◌^◌, Bool, Option, List, ltb, ◌==◌, if◌then◌else◌}
use p.Format.{Varg}

abbrev pub Str : Type 0
Str = List ℕ

-- A signed integer: pos n is n and negsuc n is -(n + 1).
pub data ℤ : Type 0 where
  pos : ℕ → ℤ
  negsuc : ℕ → ℤ

-- static_cast<int32_t>
abbrev pub to_int32 : ℕ → ℤ
to_int32 n = let low = n % 2 ^ 32 in if ltb low (2 ^ 31) then pos low else negsuc (2 ^ 32 - 1 - low)

-- enum e_p8_attr_type, in its order
pub data AttrType : Type 0 where
  attr_str attr_f64 attr_i64 attr_u64 : AttrType

abbrev pub type_code : AttrType → ℕ
type_code attr_str = 0
type_code attr_f64 = 1
type_code attr_i64 = 2
type_code attr_u64 = 3

abbrev pub is_same_type : AttrType → AttrType → Bool
is_same_type a b = type_code a == type_code b

pub record AttrDesc : Type 0 where
  pub id : ℤ
  pub type : AttrType
  pub name : Option Str

pub record LogDesc : Type 0 where
  pub hash : ℕ
  pub format : Option Str
  pub file : Option Str
  pub function : Option Str
  pub line : ℕ
  pub args_count : ℕ
  pub fixed_args_size : ℕ
  pub args : List Varg

-- `verbosity` is the number of the e_p8_level.
pub record LogMod : Type 0 where
  pub name : Option Str
  pub id : ℕ
  pub verbosity : ℕ

-- `min` and `max` are the bits of the doubles.
pub record MtkDesc : Type 0 where
  pub id : ℤ
  pub name : Option Str
  pub description : Option Str
  pub unit : Option Str
  pub flags : ℕ
  pub min : ℕ
  pub max : ℕ
