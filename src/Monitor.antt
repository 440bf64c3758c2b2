-- ===== src/Monitor.antt =====
-- The monitor of readers and writers, sc-memory/sc-core/src/sc-store/sc-base/sc_monitor.c. Its mutex
-- makes each part of an operation up to a wait on a condition one step.
pub mod System
pub mod Invariant
pub mod Reachable
pub mod Safety
pub mod Several
use sc_memory_knowledge_sync.Base.{
  ◌++◌, true, ◌||◌, ◌&&◌, ◌-◌, ◌^◌, not, ◌∷◌, ◌==◌, false, ltb, ◌%◌, Bool, if◌then◌else◌, ◌+◌, [],
  List, ℕ,
}

-- Where a thread waits: in `sc_monitor_acquire_read` or in `sc_monitor_acquire_write`.
pub data Kind : Type 0 where
  reader writer : Kind

-- `_sc_request`. Its condition is signalled, or its thread sleeps on it.
pub record Request : Type 0 where
  pub thread : ℕ
  pub kind : Kind
  pub is_signalled : Bool

-- `_sc_monitor` but for its mutexes.
pub record Monitor : Type 0 where
  pub queue : List Request
  pub active_readers : ℕ
  pub active_writer : ℕ
  pub id : ℕ
  pub ref_count : ℕ

-- `sc_monitor_init`.
abbrev pub new_monitor : Monitor
new_monitor = record { queue = []; active_readers = 0; active_writer = 0; id = 1; ref_count = 0 }

-- `sc_monitor_acquire` and `sc_monitor_release`.
abbrev pub hold_monitor : Monitor → Monitor
hold_monitor m = record m { ref_count = (m.ref_count + 1) % 2 ^ 32 }

abbrev pub leave_monitor : Monitor → Monitor
leave_monitor m = if ltb 0 m.ref_count then record m { ref_count = m.ref_count - 1 } else m

abbrev pub is_front : ℕ → List Request → Bool
is_front t [] = false
is_front t (r ∷ rs) = r.thread == t

abbrev pub passes : Kind → Monitor → Bool
passes reader m = m.active_writer == 0
passes writer m = m.active_writer == 0 && m.active_readers == 0

abbrev pub rest : List Request → List Request
rest [] = []
rest (r ∷ rs) = rs

-- The request leaves the queue and its thread is active.
abbrev pub enter : Kind → Monitor → Monitor
enter reader m = record m { queue = rest m.queue; active_readers = (m.active_readers + 1) % 2 ^ 32 }
enter writer m = record m { queue = rest m.queue; active_writer = 1 }

abbrev pub set_signalled : Bool → Request → Request
set_signalled b r = record r { is_signalled = b }

-- `sc_cond_wait`: the thread sleeps until the condition of its request is signalled.
abbrev pub asleep : ℕ → List Request → List Request
asleep t [] = []
asleep t (r ∷ rs) = (if r.thread == t then set_signalled false r else r) ∷ asleep t rs

-- The test of the loops: the thread passes it and leaves the loop, or it sleeps.
unfoldable pub test : ℕ → Kind → Monitor → Bool × Monitor
test t kind m =
    if not (is_front t m.queue) || not (passes kind m)
    then (false, record m { queue = asleep t m.queue })
    else (true, enter kind m)

-- `sc_monitor_acquire_read` and `sc_monitor_acquire_write`, up to the first wait or the return.
unfoldable pub acquire : ℕ → Kind → Monitor → Bool × Monitor
unfolding test
acquire t kind m =
    if m.id == 0
    then (true, m)
    else let m' = hold_monitor m in
      test t kind (record m' {
        queue = m'.queue ++ record { thread = t; kind = kind; is_signalled = true } ∷ [];
      })

-- `sc_cond_signal` on the condition of the first request.
abbrev pub signal_front : List Request → List Request
signal_front [] = []
signal_front (r ∷ rs) = set_signalled true r ∷ rs

unfoldable pub release_read : Monitor → Monitor
release_read m =
    let m' = record m { active_readers = (m.active_readers + 2 ^ 32 - 1) % 2 ^ 32 } in
    if m.id == 0
    then m
    else leave_monitor
        (if m'.active_readers == 0 then record m' { queue = signal_front m'.queue } else m')

unfoldable pub release_write : Monitor → Monitor
release_write m =
    if m.id == 0
    then m
    else leave_monitor (record m { active_writer = 0; queue = signal_front m.queue })
