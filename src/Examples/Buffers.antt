-- ===== src/Examples/Buffers.antt =====
-- A core whose pool is empty and has no budget: a caller that takes the buffer it grows by.
use p.Prelude.{ℕ, refl, true, false, none, some}
use p.Examples.Kit.{lst}
use p.Pool.{Waiter, new_waiter, create, acquire_no_lock}
use p.Core.Buffers.{Buffers, acquire_buffer}
use p.Core.Buffers.Pressure.{IsWoken, acquire_buffer-IsWoken}

abbrev blank : ℕ → Waiter
blank a = new_waiter 0

abbrev ready : Buffers
ready = record {
  initialized = true;
  pool = create 8192 none blank;
  outstanding = 0;
  wake_pending = false;
  wakes = 0;
}

acquire_buffer-IsWoken_example :
    IsWoken true ready
      (acquire_no_lock lst (some 1000) ready.pool).0
      (acquire_buffer lst true 5 (some 1000) none ready)
acquire_buffer-IsWoken_example = acquire_buffer-IsWoken lst true 5 (some 1000) none ready refl
