-- ===== src/Monitor/Safety.antt =====
-- What the monitor promises to its threads.
use sc_memory_knowledge_sync.Monitor.Reachable.{Run-IsSound}
use sc_memory_knowledge_sync.Monitor.System.{IsFew, Run, System}
use sc_memory_knowledge_sync.Monitor.{
  is_front, writer, reader, passes, Monitor, Request, Kind, test,
}
use sc_memory_knowledge_sync.Base.{
  sym, subst, ◌&&◌, arith, refl, ◌∙◌, true, false, ◌∷◌, ◌⊎◌, ◌==◌, List, ◌≡◌, ◌≤◌, ℕ,
}
use sc_memory_knowledge_sync.Monitor.Invariant.{is_asleep, IsAwake}

-- In each state of a run in which never 2 ^ 32 threads read at once, one thread writes at most, and
-- none reads while one writes.
pub mutual_exclusion :
    {s : System} (r : Run s) → IsFew r → (s.writers ≤ 1) × (s.writers ≡ 0 ⊎ s.readers ≡ 0)
mutual_exclusion r f = let i = Run-IsSound r f in (i.one, i.alone)

free-passes :
    (kind : Kind) (m : Monitor) → m.active_readers ≡ 0 → m.active_writer ≡ 0 → passes kind m ≡ true
free-passes reader m r w = ground arith
free-passes writer m r w = ground arith

free-signalled :
    (q : Request) (qs : List Request) (m : Monitor)
    → m.queue ≡ q ∷ qs
    → m.active_readers ≡ 0
    → m.active_writer ≡ 0
    → IsAwake m
    → q.is_signalled ≡ true
free-signalled q qs m e r w a =
    let free : (m.active_readers == 0 && m.active_writer == 0) ≡ true = ground arith in
    let awake =
      subst (λ rs. (is_asleep rs && (m.active_readers == 0 && m.active_writer == 0)) ≡ false) e a in
    ground arith

first-enters :
    (t : ℕ) (kind : Kind) (m : Monitor)
    → is_front t m.queue ≡ true
    → passes kind m ≡ true
    → (test t kind m).0 ≡ true
unfolding test
first-enters t kind m f p = rw (test, f, p) refl

-- No signal is lost: in a run in which never 2 ^ 32 threads read at once, if threads wait while none
-- reads or writes, then the first of them was signalled, and it enters as soon as it tests again.
pub no_deadlock :
    {s : System} (r : Run s)
    → IsFew r
    → (q : Request) (qs : List Request) → s.monitor.queue ≡ q ∷ qs
    → s.readers ≡ 0
    → s.writers ≡ 0
    → (q.is_signalled ≡ true) × ((test q.thread q.kind s.monitor).0 ≡ true)
unfolding test
no_deadlock {s} r f q qs e none_reads none_writes =
    let i = Run-IsSound r f in
    let no_reader : s.monitor.active_readers ≡ 0 = i.reading ∙ none_reads in
    let no_writer : s.monitor.active_writer ≡ 0 = i.writing ∙ none_writes in
    let same : (q.thread == q.thread) ≡ true = ground arith in
    (
      free-signalled q qs s.monitor e no_reader no_writer i.awake,
      first-enters q.thread q.kind s.monitor
          (subst (λ rs. is_front q.thread rs ≡ true) (sym e) same)
          (free-passes q.kind s.monitor no_reader no_writer),
    )
