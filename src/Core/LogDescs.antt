-- ===== src/Core/LogDescs.antt =====
-- engine/p8_core.cpp, resolve_log_desc: the descriptors of the log call sites, by hash.
pub mod Laws
use p.Prelude.{
  ℕ, zero, suc, ◌+◌, ◌%◌, Bool, true, false, not, ◌||◌, Option, none, some, List, [], ◌∷◌, ◌==◌,
  if◌then◌else◌, length,
}
use p.Kit.{Lst}
use p.Core.Descriptor.{Str, LogDesc}
use p.Format.{Platform, Varg, arg_ustr8, arg_ustr16, arg_ustr32, arg_stra, parse_format_string}
use p.Core.Service.{Svc, serialize_log_desc}

-- mo_log_descs, a std::map: its entries, the latest first.
abbrev pub find_desc : List (ℕ × LogDesc) → ℕ → Option LogDesc
find_desc [] hash = none
find_desc (entry ∷ entries) hash = if entry.0 == hash then some entry.1 else find_desc entries hash

abbrev pub is_string : Varg → Bool
is_string v =
    (v.type == arg_ustr8)
    || (v.type == arg_ustr16)
    || (v.type == arg_ustr32)
    || (v.type == arg_stra)

-- The sizes of the arguments that are not strings.
abbrev pub fixed_size : List Varg → ℕ
fixed_size [] = 0
fixed_size (v ∷ vs) = (if is_string v then 0 else v.size) + fixed_size vs

-- The call site.
pub record Site : Type 0 where
  pub file : Option Str
  pub line : ℕ
  pub function : Option Str
  pub format : Option Str

-- P8_LOG_MAX_ARGS
abbrev pub log_max_args : ℕ
log_max_args = 32

unfoldable pub describe : Platform → ℕ → Site → LogDesc
unfolding parse_format_string
describe p hash site =
    let args = parse_format_string p log_max_args site.format in
    record {
      hash = hash;
      format = site.format;
      file = site.file;
      function = site.function;
      line = site.line;
      args_count = length args;
      fixed_args_size = fixed_size args;
      args = args;
    }

module _ (K : Lst) where
  abbrev pub known_or_new :
      Platform
      → ℕ
      → Site
      → Bool
      → Option (List ℕ)
      → List (ℕ × LogDesc)
      → Svc
      → Option LogDesc
      → Option LogDesc × List (ℕ × LogDesc) × Svc
  known_or_new p hash site made acquired descs svc (some d) = (some d, descs, svc)
  known_or_new p hash site made acquired descs svc none =
      let d = describe p hash site in
      if not made
      then (none, descs, svc)
      else (some d, (hash, d) ∷ descs, serialize_log_desc K (some d) acquired svc)

  -- `made` is whether new answers.
  unfoldable pub resolve_log_desc :
      Platform
      → ℕ
      → Site
      → Bool
      → Option (List ℕ)
      → List (ℕ × LogDesc)
      → Svc
      → Option LogDesc × List (ℕ × LogDesc) × Svc
  unfolding describe
  resolve_log_desc p hash site made acquired descs svc =
      known_or_new p hash site made acquired descs svc (find_desc descs hash)
