-- ===== src/Examples/Services.antt =====
-- Service buffers that hold nothing yet, and one fresh buffer of the pool.
use p.Prelude.{
  ℕ, ◌≤◌, ◌<◌, ◌≡◌, refl, ◌⊎◌, Option, none, some, List, [], ◌∷◌, replicate, length-replicate,
}
use p.Examples.Kit.{lst}
use p.Core.Descriptor.{pos, attr_u64, AttrDesc, LogDesc, LogMod, MtkDesc}
use p.Core.Service.{
  Svc, buffer_size, serialize_attr_desc, serialize_log_desc, serialize_log_mod, serialize_mtk_desc,
}
use p.Core.Service.Places.{Took, IsAcquired}
use p.Core.Service.Descriptors.{
  entry_of, attr_size, attr_body, mod_size, mod_body, log_size, log_body, mtk_size, mtk_body,
  serialize_attr_desc-Took, serialize_log_mod-Took, serialize_log_desc-Took,
  serialize_mtk_desc-Took,
}
use p.Core.Service.History.{
  Sent, sent_attr, sent_module, sent_metric, send_all, IsRead, send_all-IsRead,
}

abbrev no_buffers : Svc
no_buffers = record { buffers = []; dropped = 0 }

abbrev fresh : Option (List ℕ)
fresh = some (replicate 8192 170)

fresh-IsAcquired : IsAcquired fresh
fresh-IsAcquired = length-replicate {A = ℕ} 8192 170

abbrev name : Option (List ℕ)
name = some (b'c' ∷ b'p' ∷ b'u' ∷ [])

abbrev attr : AttrDesc
attr = record { id = pos 0; type = attr_u64; name = name }

abbrev module_cpu : LogMod
module_cpu = record { name = name; id = 1; verbosity = 3 }

abbrev call_site : LogDesc
call_site = record {
  hash = 77;
  format = name;
  file = name;
  function = none;
  line = 12;
  args_count = 1;
  fixed_args_size = 4;
  args = record { type = 4; size = 4 } ∷ [];
}

abbrev load : MtkDesc
load = record {
  id = pos 0;
  name = name;
  description = none;
  unit = none;
  flags = 1;
  min = 0;
  max = 100;
}

serialize_attr_desc-Took_example :
    Took fresh []
      (entry_of 2 (attr_size attr) (attr_body attr))
      no_buffers
      (serialize_attr_desc lst (some attr) fresh no_buffers)
serialize_attr_desc-Took_example =
    serialize_attr_desc-Took lst attr fresh [] no_buffers refl fresh-IsAcquired

serialize_log_mod-Took_example :
    Took fresh []
      (entry_of 6 (mod_size module_cpu) (mod_body module_cpu))
      no_buffers
      (serialize_log_mod lst (some module_cpu) fresh no_buffers)
serialize_log_mod-Took_example =
    serialize_log_mod-Took lst module_cpu fresh [] no_buffers refl fresh-IsAcquired

serialize_log_desc-Took_example :
    Took fresh []
      (entry_of 1 (log_size call_site) (log_body call_site))
      no_buffers
      (serialize_log_desc lst (some call_site) fresh no_buffers)
serialize_log_desc-Took_example =
    serialize_log_desc-Took lst call_site fresh [] no_buffers refl fresh-IsAcquired

serialize_mtk_desc-Took_example :
    let t = serialize_mtk_desc lst (some load) [] 0 fresh no_buffers in
    ((mtk_size load [] ≤ buffer_size)
      × Took fresh [] (entry_of 5 (mtk_size load []) (mtk_body load [] 0)) no_buffers t)
    ⊎ ((buffer_size < mtk_size load []) × (t ≡ no_buffers))
serialize_mtk_desc-Took_example =
    serialize_mtk_desc-Took lst load [] 0 fresh [] no_buffers refl fresh-IsAcquired

-- Two descriptors find room, a third comes where there is a buffer already.
abbrev calls : List (Sent × Option (List ℕ))
calls =
    (sent_attr attr, fresh) ∷ (sent_module module_cpu, none) ∷ (sent_metric load [] 0, none) ∷ []

send_all-IsRead_example : IsRead calls (send_all lst calls (record { buffers = []; dropped = 0 }))
send_all-IsRead_example = send_all-IsRead lst calls (fresh-IsAcquired, (tt, (tt, tt)))
