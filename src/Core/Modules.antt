-- ===== src/Core/Modules.antt =====
-- engine/p8_core.cpp, the log modules: register_module, find_module, set_verbosity and
-- get_verbosity. A handle is the place of its module in mo_log_mods, which never moves a module
-- object; absent is P8_MODULE_INVALID_ID.
pub mod Laws
use p.Prelude.{
  ℕ, zero, suc, ◌%◌, ◌^◌, Bool, true, false, not, ◌||◌, Option, none, some, List, [], ◌∷◌, ◌++◌,
  if◌then◌else◌, length, get_elem?,
}
use p.Kit.{Lst}
use p.Core.Descriptor.{Str, LogMod}
use p.Core.Names.{given_name, find}
use p.Core.Service.{Svc, serialize_log_mod}

-- mo_log_mods, mo_log_mod_map and me_default_verbosity
pub record Mods : Type 0 where
  pub mods : List LogMod
  pub mod_map : List (Str × ℕ)
  pub default_verbosity : ℕ

-- The objects after a store to the verbosity of one.
abbrev pub store_verbosity : List LogMod → ℕ → ℕ → List LogMod
store_verbosity [] h v = []
store_verbosity (m ∷ mods) zero v = record m { verbosity = v } ∷ mods
store_verbosity (m ∷ mods) (suc h) v = m ∷ store_verbosity mods h v

-- What a call returns: its result and *op_module.
pub record Answer : Type 0 where
  pub ok : Bool
  pub handle : Option ℕ

abbrev pub refused : Answer
refused = record { ok = false; handle = none }

module _ (K : Lst) where
  unfoldable pub add_module :
      Str → ℕ → Bool → Bool → Option (List ℕ) → Mods → Svc → Answer × Mods × Svc
  add_module name verbosity made copied acquired m svc =
      let h = length m.mods in
      let new_mod : LogMod = record { name = some name; id = h % 2 ^ 16; verbosity = verbosity } in
      if not made then (refused, m, svc) else if not copied then (refused, m, svc) else (
        record { ok = true; handle = some h },
        record m { mods = m.mods ++ new_mod ∷ []; mod_map = (name, h) ∷ m.mod_map },
        serialize_log_mod K (some new_mod) acquired svc,
      )

  abbrev pub module_named :
      Str → ℕ → Bool → Bool → Option (List ℕ) → Mods → Svc → Option ℕ → Answer × Mods × Svc
  module_named name verbosity made copied acquired m svc none =
      add_module name verbosity made copied acquired m svc
  module_named name verbosity made copied acquired m svc (some h) = (
    record { ok = true; handle = some h },
    record m { mods = store_verbosity m.mods h verbosity },
    svc,
  )

  abbrev pub module_given :
      ℕ → Bool → Bool → Option (List ℕ) → Mods → Svc → Option Str → Answer × Mods × Svc
  module_given verbosity made copied acquired m svc none = (refused, m, svc)
  module_given verbosity made copied acquired m svc (some name) =
      module_named name verbosity made copied acquired m svc (find m.mod_map name)

  -- `has_out` is whether op_module is not null.
  unfoldable pub register_module :
      Bool
      → Option Str
      → ℕ
      → Bool
      → Bool
      → Bool
      → Option (List ℕ)
      → Mods
      → Svc
      → Answer × Mods × Svc
  unfolding add_module
  register_module initialized name verbosity has_out made copied acquired m svc =
      if not initialized
      then (refused, m, svc)
      else if not has_out
      then (refused, m, svc)
      else module_given verbosity made copied acquired m svc (given_name name)

abbrev pub module_lookup : Mods → Option Str → Option ℕ
module_lookup m none = none
module_lookup m (some name) = find m.mod_map name

unfoldable pub find_module : Bool → Option Str → Mods → Option ℕ
find_module initialized name m = if not initialized then none else module_lookup m (given_name name)

unfoldable pub set_verbosity : Option ℕ → ℕ → Mods → Mods
set_verbosity none v m = record m { default_verbosity = v }
set_verbosity (some h) v m = record m { mods = store_verbosity m.mods h v }

abbrev pub verbosity_of : Option LogMod → Option ℕ
verbosity_of none = none
verbosity_of (some m) = some m.verbosity

-- none is a handle that is no module's.
unfoldable pub get_verbosity : Option ℕ → Mods → Option ℕ
get_verbosity none m = some m.default_verbosity
get_verbosity (some h) m = verbosity_of (get_elem? m.mods h)
