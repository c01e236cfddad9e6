-- ===== src/Core/Buffers.antt =====
-- engine/p8_core.cpp, the way of a buffer between the pool and the threads: acquire_buffer,
-- notify_pressure, release_buffer and release_buffers, in a build without P8_TESTING.
pub mod Pressure
use p.Prelude.{
  ℕ, ◌+◌, ◌-◌, ◌*◌, ◌/◌, ◌%◌, Bool, true, false, not, ◌&&◌, Option, none, some, List, ltb, ◌==◌,
  if◌then◌else◌,
}
use p.Kit.{Lst}
use p.Budget.{word}
use p.Pool.{
  Pool, Stat, Entry, returned, parked, acquire_no_lock, acquire_wait, stat, recycle, recycle_batch,
}

-- `wakes` counts the calls of mo_worker_event.set(mu_event_wake).
pub record Buffers : Type 0 where
  pub initialized : Bool
  pub pool : Pool
  pub outstanding : ℕ
  pub wake_pending : Bool
  pub wakes : ℕ

-- P8_CORE_FREE_MEM_PERCENT
abbrev pub free_mem_percent : ℕ
free_mem_percent = 75

unfoldable pub notify : Buffers → Buffers
notify c = record c { wakes = c.wakes + 1 }

unfoldable pub notify_pressure : Buffers → Buffers
unfolding notify
notify_pressure c = if c.wake_pending then c else notify (record c { wake_pending = true })

-- The test of the fast path on what stat has filled in.
unfoldable pub under_pressure : Stat → Bool
under_pressure s = ltb 0 s.max_size && ltb (s.free_size * 100 % word / s.max_size) free_mem_percent

module _ (K : Lst) where
  -- After the fast path has taken a buffer or has not; `again` is what new answers to acquire_wait.
  unfoldable pub taken : Bool → ℕ → Option ℕ → Option ℕ → Buffers → Entry × Buffers
  unfolding notify_pressure under_pressure
  taken wait self again (some b) c =
      (returned (some b), if under_pressure (stat K c.pool) then notify_pressure c else c)
  taken wait self again none c =
      if not wait
      then (returned none, c)
      else (let d = notify_pressure c in
          let (entry, p) = acquire_wait K self again d.pool in (entry, record d { pool = p }))

  -- `answer` and `again` are what new answers to the two calls of acquire_no_lock, and `self` is
  -- the node with which a blocked caller waits.
  unfoldable pub acquire_buffer : Bool → ℕ → Option ℕ → Option ℕ → Buffers → Entry × Buffers
  unfolding taken
  acquire_buffer wait self answer again c =
      if not c.initialized
      then (returned none, c)
      else (let (got, p) = acquire_no_lock K answer c.pool in
          taken wait self again got (record c { pool = p }))

  -- none as the result is a null pointer that the pool reads.
  abbrev pub released : ℕ → Buffers → Option Pool → Option Buffers
  released count c none = none
  released count c (some p) =
      some (record c { pool = p; outstanding = (c.outstanding + word - count) % word })

  abbrev pub release_given : Buffers → Option ℕ → Option Buffers
  release_given c none = some c
  release_given c (some b) = released 1 c (recycle K (some b) c.pool)

  unfoldable pub release_buffer : Option ℕ → Buffers → Option Buffers
  release_buffer b c = if not c.initialized then some c else release_given c b

  unfoldable pub release_buffers : List (Option ℕ) → Buffers → Option Buffers × List (Option ℕ)
  release_buffers bufs c =
      let count = K.size bufs in
      if not c.initialized
      then (some c, bufs)
      else if count == 0
      then (some c, bufs)
      else (let (p, left) = recycle_batch K bufs c.pool in (released count c p, left))
