-- ===== src/Monitor/Invariant.antt =====
-- What holds in every state of a run, and that a test keeps it.
use sc_memory_knowledge_sync.Monitor.{
  writer, reader, enter, passes, asleep, is_front, Kind, Request, test, Monitor,
}
use sc_memory_knowledge_sync.Base.{
  inr, ◌%◌, Bool-cases, true, if◌then◌else◌, ◌||◌, ◌&&◌, refl, [], not, ◌^◌, ◌==◌, ◌∷◌, ◌<◌, ◌⊎◌,
  false, ◌+◌, inl, ◌≤◌, Bool, arith, ◌≡◌, ℕ, List,
}
use sc_memory_knowledge_sync.Monitor.System.{after, initial, System}

abbrev pub is_asleep : List Request → Bool
is_asleep [] = false
is_asleep (r ∷ rs) = not r.is_signalled

-- A first request whose thread sleeps, and was not signalled, waits for an active thread.
abbrev pub IsAwake : Monitor → Type 0
IsAwake m = (is_asleep m.queue && (m.active_readers == 0 && m.active_writer == 0)) ≡ false

pub record IsSound (s : System) : Type 0 where
  pub reading : s.monitor.active_readers ≡ s.readers
  pub writing : s.monitor.active_writer ≡ s.writers
  pub one : s.writers ≤ 1
  pub alone : s.writers ≡ 0 ⊎ s.readers ≡ 0
  pub used : (s.monitor.id == 0) ≡ false
  pub awake : IsAwake s.monitor

pub initial-IsSound : IsSound initial
initial-IsSound = record {
  reading = refl;
  writing = refl;
  one = omega arith;
  alone = inl refl;
  used = refl;
  awake = refl;
}

is_asleep-asleep :
    (t : ℕ) (queue : List Request)
    → is_front t queue ≡ false
    → is_asleep (asleep t queue) ≡ is_asleep queue
is_asleep-asleep t [] h = refl
is_asleep-asleep t (r ∷ rs) h = rw h refl

asleep-IsSound :
    (t : ℕ) (kind : Kind) (s : System)
    → IsSound s
    → (not (is_front t s.monitor.queue) || not (passes kind s.monitor)) ≡ true
    → IsSound (record s { monitor = record s.monitor { queue = asleep t s.monitor.queue } })
asleep-IsSound t kind s i h = record {
  reading = i.reading;
  writing = i.writing;
  one = i.one;
  alone = i.alone;
  used = i.used;
  awake = elim (Bool-cases (is_front t s.monitor.queue)) [
    | inl f ↦ held kind (ground arith)
    | inr f ↦ rw (is_asleep-asleep t s.monitor.queue f) i.awake
  ];
}
  where
    held :
        (kind : Kind)
        → passes kind s.monitor ≡ false
        → IsAwake (record s.monitor { queue = asleep t s.monitor.queue })
    held reader p = ground arith
    held writer p = ground arith

enter-IsSound :
    (kind : Kind) (s : System)
    → IsSound s
    → passes kind s.monitor ≡ true
    → (after kind (true, enter kind s.monitor) s).readers < 2 ^ 32
    → IsSound (after kind (true, enter kind s.monitor) s)
enter-IsSound reader s i p few =
    let count = i.reading in
    let flag = i.writing in
    let next : (s.monitor.active_readers + 1) % 2 ^ 32 ≡ s.readers + 1 = omega arith in
    record {
      reading = next;
      writing = i.writing;
      one = i.one;
      alone = inl (ground arith);
      used = i.used;
      awake = ground arith;
    }
enter-IsSound writer s i p few =
    let count = i.reading in
    let flag = i.writing in
    let free : s.writers ≡ 0 = ground arith in
    let unread : s.readers ≡ 0 = ground arith in
    record {
      reading = i.reading;
      writing = omega arith;
      one = omega arith;
      alone = inr unread;
      used = i.used;
      awake = ground arith;
    }

pub test-IsSound :
    (t : ℕ) (kind : Kind) (s : System)
    → IsSound s
    → (after kind (test t kind s.monitor) s).readers < 2 ^ 32
    → IsSound (after kind (test t kind s.monitor) s)
unfolding test
test-IsSound t kind s i few =
    go (not (is_front t s.monitor.queue) || not (passes kind s.monitor)) refl few
  where
    outcome : Bool → Bool × Monitor
    outcome b =
        if b
        then (false, record s.monitor { queue = asleep t s.monitor.queue })
        else (true, enter kind s.monitor)

    go :
        (b : Bool)
        → (not (is_front t s.monitor.queue) || not (passes kind s.monitor)) ≡ b
        → (after kind (outcome b) s).readers < 2 ^ 32
        → IsSound (after kind (outcome b) s)
    go true e few' = asleep-IsSound t kind s i e
    go false e few' = enter-IsSound kind s i (ground arith) few'
