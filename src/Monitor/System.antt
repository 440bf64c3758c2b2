-- ===== src/Monitor/System.antt =====
-- Threads that use one monitor, interleaved in any order.
use sc_memory_knowledge_sync.Monitor.{
  release_write, release_read, test, writer, reader, Request, acquire, Kind, new_monitor, Monitor,
}
use sc_memory_knowledge_sync.Base.{
  [], ◌||◌, ◌==◌, Mem, ◌∷◌, ◌≡◌, List, true, false, ◌+◌, ◌^◌, Bool, ◌<◌, ℕ,
}

-- A monitor, with the numbers of the threads that have acquired it and have not released it.
pub record System : Type 0 where
  pub monitor : Monitor
  pub readers : ℕ
  pub writers : ℕ

abbrev pub initial : System
initial = record { monitor = new_monitor; readers = 0; writers = 0 }

-- A thread returns from an acquisition, or sleeps.
abbrev pub after : Kind → Bool × Monitor → System → System
after kind (false, m) s = record s { monitor = m }
after reader (true, m) s = record s { monitor = m; readers = s.readers + 1 }
after writer (true, m) s = record s { monitor = m; writers = s.writers + 1 }

-- A thread makes one request at a time.
abbrev pub is_waiting : ℕ → List Request → Bool
is_waiting t [] = false
is_waiting t (r ∷ rs) = r.thread == t || is_waiting t rs

-- A thread begins an acquisition; a thread that waits wakes up, signalled or not, and tests again; a
-- thread that reads or writes releases the monitor.
pub data Step (s : System) : System → Type 0 where
  begin :
      (t : ℕ) (kind : Kind)
      → is_waiting t s.monitor.queue ≡ false
      → Step s (after kind (acquire t kind s.monitor) s)
  wake :
      (r : Request)
      → Mem r s.monitor.queue
      → Step s (after r.kind (test r.thread r.kind s.monitor) s)
  end_read :
      (n : ℕ)
      → s.readers ≡ n + 1
      → Step s (record { monitor = release_read s.monitor; readers = n; writers = s.writers })
  end_write :
      (n : ℕ)
      → s.writers ≡ n + 1
      → Step s (record { monitor = release_write s.monitor; readers = s.readers; writers = n })

pub data Run : System → Type 0 where
  start : Run initial
  later : {s u : System} → Run s → Step s u → Run u

-- In no state of a run do 2 ^ 32 threads read, more than the counter of the readers can tell apart.
abbrev pub IsFew : {s : System} → Run s → Type 0
IsFew start = Unit
IsFew (later {s} {u} r st) = IsFew r × (u.readers < 2 ^ 32)
