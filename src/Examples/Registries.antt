-- ===== src/Examples/Registries.antt =====
-- The registries of the core, from their empty states.
use p.Prelude.{◌≡◌, refl, true, false, none, some, List, [], ◌∷◌, length, take, arith, ◌==◌}
use p.Examples.Kit.{lst}
use p.Examples.Formats.{linux}
use p.Core.Descriptor.{Str, pos, attr_u64, AttrDesc, LogDesc}
use p.Core.Names.{Returns}
use p.Core.Service.{Svc, little_endian, int32_bytes, serialize_log_mod}
use p.Core.Attributes.{Attrs, attr_register, add_attr}
use p.Core.Attributes.Laws.{
  IsAttrs, IsAttrAnswer, attr_register-IsAttrs, attr_get-attr_register, attr_register_again,
}
use p.Core.Modules.{Mods, register_module, set_verbosity, get_verbosity}
use p.Core.Modules.Laws.{
  IsMods, IsRegistered, register_module-IsRegistered, get_verbosity-set_verbosity,
}
use p.Core.Metrics.{Mtks, MtkBase, Allocations, AttrVal, register_mtk, encode_attr_blob}
use p.Core.Metrics.Laws.{IsMtks, IsMtkAnswer, register_mtk-IsMtks, register_mtk-IsMtkAnswer}
use p.Core.Metrics.Blob.{known_values, flat, encode_attr_blob_lem}
use p.Core.LogDescs.{Site, resolve_log_desc}
use p.Core.LogDescs.Laws.{SiteCall, resolve_all, resolve_log_desc_once}

abbrev no_svc : Svc
no_svc = record { buffers = []; dropped = 0 }

abbrev cpu : Str
cpu = b'c' ∷ b'p' ∷ b'u' ∷ []

abbrev no_attrs : Attrs
no_attrs = record { descs = []; name_map = [] }

no_attrs-IsAttrs : IsAttrs no_attrs
no_attrs-IsAttrs = (λ name k found. cc, λ n a held. cc)

abbrev cpu_attr : AttrDesc
cpu_attr = record { id = pos 0; type = attr_u64; name = some cpu }

abbrev one_attr : Attrs
one_attr = record { descs = cpu_attr ∷ []; name_map = (cpu, pos 0) ∷ [] }

attr_register-IsAttrs_example :
    Returns
      (attr_register lst true (some cpu) attr_u64 true true none no_attrs no_svc)
      (λ r. IsAttrs r.1)
attr_register-IsAttrs_example =
    attr_register-IsAttrs lst true (some cpu) attr_u64 true true none no_attrs no_svc (omega arith)
      no_attrs-IsAttrs

attr_get-attr_register_example :
    Returns
      (attr_register lst true (some cpu) attr_u64 true true none no_attrs no_svc)
      (IsAttrAnswer (some cpu) attr_u64 no_attrs)
attr_get-attr_register_example =
    attr_get-attr_register lst (some cpu) cpu attr_u64 none no_attrs no_svc refl (omega arith)
      no_attrs-IsAttrs

abbrev one_dropped : Svc
one_dropped = record { buffers = []; dropped = 1 }

registers_cpu :
    attr_register lst true (some cpu) attr_u64 true true none no_attrs no_svc
    ≡ some (pos 0, one_attr, one_dropped)
unfolding attr_register add_attr p.Core.Service.serialize_attr_desc p.Core.Service.svc_reserve
    p.Core.Service.svc_acquire_new p.Core.Service.store
registers_cpu = refl

attr_register_again_example :
    attr_register lst true (some cpu) attr_u64 false false none one_attr no_svc
    ≡ some (pos 0, one_attr, no_svc)
attr_register_again_example =
    attr_register_again lst (some cpu) cpu attr_u64 false false none none no_attrs one_attr no_svc
      one_dropped no_svc 0 refl (omega arith) no_attrs-IsAttrs registers_cpu

abbrev no_mods : Mods
no_mods = record { mods = []; mod_map = []; default_verbosity = 0 }

no_mods-IsMods : IsMods no_mods
no_mods-IsMods = (λ name k found. cc, λ n a held. cc)

abbrev one_mod : Mods
one_mod = record {
  mods = record { name = some cpu; id = 0; verbosity = 3 } ∷ [];
  mod_map = (cpu, 0) ∷ [];
  default_verbosity = 0;
}

register_module-IsRegistered_example :
    IsRegistered
      (some cpu)
      3
      no_mods
      (register_module lst true (some cpu) 3 true true true none no_mods no_svc)
register_module-IsRegistered_example =
    register_module-IsRegistered lst (some cpu) 3 true true true none no_mods no_svc no_mods-IsMods

reads_three : get_verbosity (some 0) one_mod ≡ some 3
unfolding get_verbosity
reads_three = refl

get_verbosity-set_verbosity_example :
    (get_verbosity (some 0) (set_verbosity (some 0) 5 one_mod) ≡ some 5)
    × (get_verbosity none (set_verbosity (some 0) 5 one_mod) ≡ get_verbosity none one_mod)
get_verbosity-set_verbosity_example =
    get_verbosity-set_verbosity (some 0) none 5 3 one_mod reads_three (λ e. cc)

abbrev no_mtks : Mtks
no_mtks = record { descs = []; name_map = []; count = 0 }

no_mtks-IsMtks : IsMtks no_mtks
no_mtks-IsMtks = ((λ name k found. cc, λ n a held. cc), λ n d held. cc, refl)

abbrev load : MtkBase
load = record {
  name = some cpu;
  description = none;
  unit = none;
  on = true;
  min = 0;
  max = 100;
  attrs = none;
}

abbrev all_given : Allocations
all_given = record {
  name_copied = true;
  description_copied = true;
  unit_copied = true;
  made = true;
}

register_mtk-IsMtks_example :
    Returns
      (register_mtk lst ◌==◌ true [] (some load) all_given none no_mtks no_svc)
      (λ r. IsMtks r.1)
register_mtk-IsMtks_example =
    register_mtk-IsMtks lst ◌==◌ [] true (some load) all_given none no_mtks no_svc (omega arith)
      no_mtks-IsMtks

register_mtk-IsMtkAnswer_example :
    Returns
      (register_mtk lst ◌==◌ true [] (some load) all_given none no_mtks no_svc)
      (IsMtkAnswer ◌==◌ cpu load no_mtks)
register_mtk-IsMtkAnswer_example =
    register_mtk-IsMtkAnswer lst ◌==◌ [] load cpu all_given none no_mtks no_svc refl refl refl refl
      (omega arith) no_mtks-IsMtks

abbrev vals : List AttrVal
vals =
    record { id = pos 0; str = none; bits = 42 } ∷ record { id = pos 9; str = none; bits = 1 } ∷ []

encode_attr_blob_lem_example : encode_attr_blob (cpu_attr ∷ []) (some vals) ≡ (
  length (take 255 (known_values (cpu_attr ∷ []) vals)),
  flat (take 255 (known_values (cpu_attr ∷ []) vals)),
)
encode_attr_blob_lem_example = encode_attr_blob_lem (cpu_attr ∷ []) vals

abbrev site : Site
site = record { file = some cpu; line = 3; function = none; format = some cpu }

abbrev calls : List SiteCall
calls =
    record { hash = 78; site = site; made = true; acquired = none }
    ∷ record { hash = 77; site = site; made = false; acquired = none }
    ∷ []

resolve_log_desc_once_example :
    let r = resolve_log_desc lst linux 77 site true none [] no_svc in
    let s = resolve_all lst linux calls r.1 r.2 in
    (d : LogDesc) × (r.0 ≡ some d)
    × (resolve_log_desc lst linux 77 site false none s.0 s.1 ≡ (some d, s.0, s.1))
resolve_log_desc_once_example =
    resolve_log_desc_once lst linux 77 site site false none none calls [] no_svc
