-- ===== src/Monitor/Reachable.antt =====
-- Every step keeps what holds in every state of a run.
use sc_memory_knowledge_sync.Monitor.{
  acquire, release_write, release_read, signal_front, leave_monitor, writer, reader, hold_monitor,
  Kind, Request, test, Monitor,
}
use sc_memory_knowledge_sync.Base.{
  subst, sym, ◌-◌, ltb, inr, ◌++◌, ◌%◌, Bool-cases, true, ◌&&◌, refl, [], ◌^◌, ◌==◌, ◌∷◌, ◌<◌,
  false, ◌+◌, inl, Bool, arith, ◌≡◌, ℕ, List,
}
use sc_memory_knowledge_sync.Monitor.System.{
  end_write, end_read, start, later, wake, begin, IsFew, Run, Step, after, System,
}
use sc_memory_knowledge_sync.Monitor.Invariant.{is_asleep, IsSound, initial-IsSound, test-IsSound}

-- A new request goes behind the others.
push-IsSound :
    (r : Request) (s : System)
    → r.is_signalled ≡ true
    → IsSound s
    → IsSound (record s {
      monitor = record (hold_monitor s.monitor) { queue = s.monitor.queue ++ r ∷ [] };
    })
push-IsSound r s e i = record {
  reading = i.reading;
  writing = i.writing;
  one = i.one;
  alone = i.alone;
  used = i.used;
  awake = go s.monitor.queue i.awake;
}
  where
    held : Bool
    held = s.monitor.active_readers == 0 && s.monitor.active_writer == 0

    go :
        (queue : List Request)
        → (is_asleep queue && held) ≡ false
        → (is_asleep (queue ++ r ∷ []) && held) ≡ false
    go [] h = rw e refl
    go (q ∷ qs) h = h

-- Whether the monitor is left by its last reader, only its first request changes.
leave_monitor-IsSound :
    (s : System) → IsSound s → IsSound (record s { monitor = leave_monitor s.monitor })
leave_monitor-IsSound s i = elim (Bool-cases (ltb 0 s.monitor.ref_count)) [
  | inl h ↦ rw h (record {
    reading = i.reading;
    writing = i.writing;
    one = i.one;
    alone = i.alone;
    used = i.used;
    awake = i.awake;
  })
  | inr h ↦ rw h i
]

signal_front-is_asleep : (queue : List Request) → is_asleep (signal_front queue) ≡ false
signal_front-is_asleep [] = refl
signal_front-is_asleep (r ∷ rs) = refl

release_read-IsSound :
    (n : ℕ) (s : System)
    → IsSound s
    → s.readers ≡ n + 1
    → s.readers < 2 ^ 32
    → IsSound (record { monitor = release_read s.monitor; readers = n; writers = s.writers })
unfolding release_read
release_read-IsSound n s i e few =
    let count = i.reading in
    let alone' : s.writers ≡ 0 = ground (arith, i.alone) in
    let left : (s.monitor.active_readers + 2 ^ 32 - 1) % 2 ^ 32 ≡ n = omega arith in
    rw (release_read, i.used)
      (elim (Bool-cases (n == 0)) [
        | inl z ↦
            rw (left, z)
              (leave_monitor-IsSound _ (record {
                reading = refl;
                writing = i.writing;
                one = i.one;
                alone = inl alone';
                used = i.used;
                awake = rw (signal_front-is_asleep s.monitor.queue) refl;
              }))
        | inr z ↦
            rw (left, z)
              (leave_monitor-IsSound _ (record {
                reading = refl;
                writing = i.writing;
                one = i.one;
                alone = inl alone';
                used = i.used;
                awake = (ground arith);
              }))
      ])

release_write-IsSound :
    (n : ℕ) (s : System)
    → IsSound s
    → s.writers ≡ n + 1
    → IsSound (record { monitor = release_write s.monitor; readers = s.readers; writers = n })
unfolding release_write
release_write-IsSound n s i e =
    let last : n ≡ 0 = omega (arith, i.one) in
    rw (release_write, i.used)
      (leave_monitor-IsSound _ (record {
        reading = i.reading;
        writing = sym last;
        one = omega arith;
        alone = inl last;
        used = i.used;
        awake = rw (signal_front-is_asleep s.monitor.queue) refl;
      }))

after-monitor :
    (kind : Kind) (o : Bool × Monitor) (m : Monitor) (s : System)
    → after kind o (record s { monitor = m }) ≡ after kind o s
after-monitor kind (false, m') m s = refl
after-monitor reader (true, m') m s = refl
after-monitor writer (true, m') m s = refl

acquire-IsSound :
    (t : ℕ) (kind : Kind) (s : System)
    → IsSound s
    → (after kind (acquire t kind s.monitor) s).readers < 2 ^ 32
    → IsSound (after kind (acquire t kind s.monitor) s)
unfolding acquire
acquire-IsSound t kind s i =
    let r : Request = record { thread = t; kind = kind; is_signalled = true } in
    let m : Monitor = record (hold_monitor s.monitor) { queue = s.monitor.queue ++ r ∷ [] } in
    rw (acquire, i.used)
      (subst (λ (u : System). u.readers < 2 ^ 32 → IsSound u)
        (after-monitor kind (test t kind m) m s)
        (test-IsSound t kind (record s { monitor = m }) (push-IsSound r s refl i)))

Step-IsSound :
    {s u : System} → Step s u → s.readers < 2 ^ 32 → u.readers < 2 ^ 32 → IsSound s → IsSound u
Step-IsSound (begin t kind h) few few' i = acquire-IsSound t kind _ i few'
Step-IsSound (wake r h) few few' i = test-IsSound r.thread r.kind _ i few'
Step-IsSound (end_read n h) few few' i = release_read-IsSound n _ i h few
Step-IsSound (end_write n h) few few' i = release_write-IsSound n _ i h

few_readers : {s : System} (r : Run s) → IsFew r → s.readers < 2 ^ 32
few_readers start f = omega arith
few_readers (later r st) f = f.1

pub Run-IsSound : {s : System} (r : Run s) → IsFew r → IsSound s
Run-IsSound start f = initial-IsSound
Run-IsSound (later r st) f = Step-IsSound st (few_readers r f.0) f.1 (Run-IsSound r f.0)
