-- ===== src/Tests/Monitors.antt =====
-- The monitor and the containers on concrete inputs.
use sc_memory_knowledge_sync.Container.Queue.Shape.{contents, IsQueue}
use sc_memory_knowledge_sync.Monitor.System.{end_read, begin, start, later, Run, System}
use sc_memory_knowledge_sync.Monitor.{
  Monitor, reader, test, new_monitor, release_read, writer, acquire, Request,
}
use sc_memory_knowledge_sync.Base.{
  Option, none, ltb, some, if◌then◌else◌, ◌∷◌, ◌++◌, inr, ◌+◌, List, ℕ, refl, arith, [], ◌⊎◌, ◌≡◌,
  ◌≤◌, true,
}
use sc_memory_knowledge_sync.Monitor.Safety.{no_deadlock, mutual_exclusion}
use sc_memory_knowledge_sync.Monitor.Several.{
  is_given, has_id, acquired_n-IsIncreasing, acquired_n, IsIncreasing, collect_monitors,
}
use sc_memory_knowledge_sync.Container.Queue.{pop, push, Queue}
use sc_memory_knowledge_sync.Container.Queue.Contents.{contents-pop, contents-push, others, first}

-- A thread reads, another waits to write, and the first leaves.
abbrev left : (s : System) × Run s
unfolding acquire release_read
left =
    (_, later (later (later start (begin 0 reader refl)) (begin 1 writer refl)) (end_read 0 refl))

abbrev request : Request
request = record { thread = 1; kind = writer; is_signalled = true }

mutual_exclusion_example : (left.0.writers ≤ 1) × (left.0.writers ≡ 0 ⊎ left.0.readers ≡ 0)
unfolding acquire release_read
mutual_exclusion_example = mutual_exclusion left.1 (((tt, omega arith), omega arith), omega arith)

no_deadlock_example :
    (request.is_signalled ≡ true) × ((test request.thread request.kind left.0.monitor).0 ≡ true)
unfolding acquire release_read
no_deadlock_example =
    no_deadlock left.1 (((tt, omega arith), omega arith), omega arith) request [] refl refl refl

abbrev monitor_of : ℕ → Monitor
monitor_of n = record new_monitor { id = n }

-- Puts a first monitor behind a second one of a smaller identifier.
abbrev swapped : List Monitor → List Monitor
swapped (m ∷ n ∷ []) = if ltb n.id m.id then n ∷ m ∷ [] else m ∷ n ∷ []
swapped ms = ms

abbrev given : List (Option Monitor)
given = some (monitor_of 7) ∷ none ∷ some (monitor_of 3) ∷ some (monitor_of 7) ∷ []

acquired_n-IsIncreasing_example :
    IsIncreasing (acquired_n swapped given)
    × ((k : ℕ) → has_id k (acquired_n swapped given) ≡ is_given k given)
unfolding collect_monitors
acquired_n-IsIncreasing_example =
    acquired_n-IsIncreasing swapped given (λ k. ground arith) (refl, tt)
      (omega arith, (omega arith, (omega arith, tt)))

-- A queue whose front is behind its back.
abbrev wrapped : Queue ℕ
wrapped = record { items = λ i. i + 10; front = 3; after_back = 3; size = 4; capacity = 4 }

wrapped-IsQueue : IsQueue wrapped
wrapped-IsQueue = record {
  fits = omega arith;
  some_room = omega arith;
  front_fits = omega arith;
  back_fits = omega arith;
  full = refl;
  started = inr (omega arith);
}

contents-push_example :
    IsQueue (push 0 9 wrapped) × (contents (push 0 9 wrapped) ≡ contents wrapped ++ 9 ∷ [])
contents-push_example = contents-push 0 9 wrapped wrapped-IsQueue

contents-push_run : contents (push 0 9 wrapped) ≡ 13 ∷ 10 ∷ 11 ∷ 12 ∷ 9 ∷ []
unfolding push
contents-push_run = refl

contents-pop_example :
    ((pop 0 wrapped).0 ≡ first 0 (contents wrapped))
    × IsQueue (pop 0 wrapped).1
    × (contents (pop 0 wrapped).1 ≡ others 0 (contents wrapped))
contents-pop_example = contents-pop 0 wrapped wrapped-IsQueue
