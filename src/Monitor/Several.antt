-- ===== src/Monitor/Several.antt =====
-- The acquisition of several monitors, `sc_monitor_acquire_read_n` and the like of sc_monitor.c.
-- `qsort` is a parameter.
use mathlib.Core.List.{reverse}
use sc_memory_knowledge_sync.Base.{
  sym, true, ◌∙◌, ap, inr, refl, inl, ◌%◌, ◌||◌, none, Bool-cases, arith, ◌&&◌, ◌-◌, ◌==◌, some,
  ◌<◌, if◌then◌else◌, [], ltb, ◌^◌, false, ◌≤◌, ◌≡◌, ◌++◌, ◌∷◌, ◌+◌, Option, Bool, List, ℕ,
}
use sc_memory_knowledge_sync.Monitor.{Monitor}

-- Whether one of the monitors that were taken has an identifier.
abbrev pub has_id : ℕ → List Monitor → Bool
has_id k [] = false
has_id k (m ∷ ms) = m.id == k || has_id k ms

-- The loop over the arguments, of which some are null pointers.
unfoldable pub collect_monitors : List Monitor → List (Option Monitor) → List Monitor
collect_monitors monitors [] = monitors
collect_monitors monitors (none ∷ args) = collect_monitors monitors args
collect_monitors monitors (some m ∷ args) =
    collect_monitors (if has_id m.id monitors then monitors else monitors ++ m ∷ []) args

-- `compare_monitors`, as a 32-bit word of an integer with a sign.
abbrev pub compare_monitors : Monitor → Monitor → ℕ
compare_monitors a b = (a.id + 2 ^ 32 - b.id) % 2 ^ 32

abbrev pub is_positive : ℕ → Bool
is_positive n = ltb 0 n && ltb n (2 ^ 31)

module _ (qsort : List Monitor → List Monitor) where
  -- The monitors in the order in which they are acquired, and released.
  unfoldable pub acquired_n : List (Option Monitor) → List Monitor
  unfolding collect_monitors
  acquired_n args = qsort (collect_monitors [] args)

  unfoldable pub released_n : List (Option Monitor) → List Monitor
  unfolding collect_monitors
  released_n args = reverse (qsort (collect_monitors [] args))

-- How many of the monitors have an identifier.
abbrev pub count_id : ℕ → List Monitor → ℕ
count_id k [] = 0
count_id k (m ∷ ms) = (if m.id == k then 1 else 0) + count_id k ms

-- No monitor is behind one that compares as greater.
abbrev pub IsOrdered : List Monitor → Type 0
IsOrdered [] = Unit
IsOrdered (m ∷ []) = Unit
IsOrdered (m ∷ n ∷ ms) = (is_positive (compare_monitors m n) ≡ false) × IsOrdered (n ∷ ms)

abbrev pub IsIncreasing : List Monitor → Type 0
IsIncreasing [] = Unit
IsIncreasing (m ∷ []) = Unit
IsIncreasing (m ∷ n ∷ ms) = (m.id < n.id) × IsIncreasing (n ∷ ms)

-- Identifiers that the comparison tells apart.
abbrev pub IsSmall : List Monitor → Type 0
IsSmall [] = Unit
IsSmall (m ∷ ms) = (m.id < 2 ^ 31) × IsSmall ms

count_id-last :
    (k : ℕ) (m : Monitor) (ms : List Monitor)
    → count_id k (ms ++ m ∷ []) ≡ count_id k ms + (if m.id == k then 1 else 0)
count_id-last k m [] = omega arith
count_id-last k m (n ∷ ms) = omega (arith, count_id-last k m ms)

has_id-count_id : (k : ℕ) (ms : List Monitor) → has_id k ms ≡ false → count_id k ms ≡ 0
has_id-count_id k [] h = refl
has_id-count_id k (m ∷ ms) h = ground (arith, has_id-count_id k ms)

-- Each identifier is taken once.
collect_monitors-count_id :
    (k : ℕ) (args : List (Option Monitor)) (ms : List Monitor)
    → count_id k ms ≤ 1
    → count_id k (collect_monitors ms args) ≤ 1
unfolding collect_monitors
collect_monitors-count_id k [] ms h = h
collect_monitors-count_id k (none ∷ args) ms h = collect_monitors-count_id k args ms h
collect_monitors-count_id k (some m ∷ args) ms h =
    collect_monitors-count_id k args (if has_id m.id ms then ms else ms ++ m ∷ [])
      (elim (Bool-cases (has_id m.id ms)) [
        | inl e ↦ rw e h
        | inr e ↦
            rw (e, count_id-last k m ms)
              (elim (Bool-cases (m.id == k)) [
                | inl same ↦
                    let eq_id : k ≡ m.id = ground arith in
                    let absent : count_id k ms ≡ 0 =
                      ap (λ n. count_id n ms) eq_id ∙ has_id-count_id m.id ms e in
                    rw (same, absent) (omega arith)
                | inr other ↦ rw other (omega (arith, h))
              ])
      ])

increasing :
    (ms : List Monitor)
    → ((k : ℕ) → count_id k ms ≤ 1)
    → IsSmall ms
    → IsOrdered ms
    → IsIncreasing ms
increasing [] c s o = tt
increasing (m ∷ []) c s o = tt
increasing (m ∷ n ∷ ms) c s o =
    let at_most : m.id ≤ n.id = ground (arith, o.0, s.0, s.1.0) in
    let apart : (n.id == m.id) ≡ false = repeated (n.id == m.id) refl in
    (ground arith, increasing (n ∷ ms) (λ k. omega (arith, c k)) s.1 o.1)
  where
    repeated : (b : Bool) → (n.id == m.id) ≡ b → b ≡ false
    repeated false e = refl
    repeated true e =
        let same : (m.id == m.id) ≡ true = ground arith in
        let two : count_id m.id (m ∷ n ∷ ms) ≡ 2 + count_id m.id ms = rw (same, e) (omega arith) in
        absurd (omega (arith, c m.id, two))

-- Whether one of the arguments is a monitor with an identifier.
abbrev pub is_given : ℕ → List (Option Monitor) → Bool
is_given k [] = false
is_given k (none ∷ args) = is_given k args
is_given k (some m ∷ args) = m.id == k || is_given k args

-- The identifiers of the arguments are told apart by the comparison.
abbrev pub AreSmall : List (Option Monitor) → Type 0
AreSmall [] = Unit
AreSmall (none ∷ args) = AreSmall args
AreSmall (some m ∷ args) = (m.id < 2 ^ 31) × AreSmall args

is_given-small :
    (k : ℕ) (args : List (Option Monitor)) → AreSmall args → is_given k args ≡ true → k < 2 ^ 31
is_given-small k [] s h = cc
is_given-small k (none ∷ args) s h = is_given-small k args s h
is_given-small k (some m ∷ args) s h = ground (arith, is_given-small k args)

has_id-last :
    (k : ℕ) (m : Monitor) (ms : List Monitor) → has_id k (ms ++ m ∷ []) ≡ (has_id k ms || m.id == k)
has_id-last k m [] = ground arith
has_id-last k m (n ∷ ms) = ground (arith, has_id-last k m ms)

known :
    (k : ℕ) (m : Monitor) (ms : List Monitor)
    → has_id m.id ms ≡ true
    → has_id k ms ≡ (has_id k ms || m.id == k)
known k m ms e = elim (Bool-cases (m.id == k)) [
  | inl q ↦
      let there : has_id k ms ≡ true =
        ap (λ n. has_id n ms) {x = k} {y = m.id} (ground arith) ∙ e in
      rw there refl
  | inr q ↦ ground arith
]

-- No argument is passed over but for null pointers and identifiers that were taken.
collect_monitors-has_id :
    (k : ℕ) (args : List (Option Monitor)) (ms : List Monitor)
    → has_id k (collect_monitors ms args) ≡ (has_id k ms || is_given k args)
unfolding collect_monitors
collect_monitors-has_id k [] ms = ground arith
collect_monitors-has_id k (none ∷ args) ms = collect_monitors-has_id k args ms
collect_monitors-has_id k (some m ∷ args) ms =
    collect_monitors-has_id k args (if has_id m.id ms then ms else ms ++ m ∷ [])
    ∙ elim (Bool-cases (has_id m.id ms)) [
      | inl e ↦ rw e (ground (arith, known k m ms e))
      | inr e ↦ rw e (ground (arith, has_id-last k m ms))
    ]

has_id-count : (k : ℕ) (ms : List Monitor) → has_id k ms ≡ ltb 0 (count_id k ms)
has_id-count k [] = refl
has_id-count k (m ∷ ms) = ground (arith, has_id-count k ms)

small : (ms : List Monitor) → ((k : ℕ) → has_id k ms ≡ true → k < 2 ^ 31) → IsSmall ms
small [] f = tt
small (m ∷ ms) f = (f m.id (ground arith), small ms (λ k h. f k (ground arith)))

-- Where `qsort` orders the monitors that it is given by their comparison, and keeps how many have an
-- identifier, the monitors given by identifiers below 2 ^ 31, some of them twice or null, are
-- acquired in the increasing order of their identifiers, each once; and those of all identifiers
-- that are given are acquired, and no others.
pub acquired_n-IsIncreasing :
    (qsort : List Monitor → List Monitor) (args : List (Option Monitor))
    → ((k : ℕ)
        → count_id k (qsort (collect_monitors [] args)) ≡ count_id k (collect_monitors [] args))
    → IsOrdered (qsort (collect_monitors [] args))
    → AreSmall args
    → IsIncreasing (acquired_n qsort args)
      × ((k : ℕ) → has_id k (acquired_n qsort args) ≡ is_given k args)
unfolding acquired_n
acquired_n-IsIncreasing qsort args same o s =
    let sorted = qsort (collect_monitors [] args) in
    let given = λ (k : ℕ).
      has_id-count k sorted
      ∙ ap (ltb 0) (same k)
      ∙ sym (has_id-count k (collect_monitors [] args))
      ∙ collect_monitors-has_id k args [] in
    (
      increasing sorted (λ k. omega (arith, same k, collect_monitors-count_id k args []))
          (small sorted (λ k h. is_given-small k args s (sym (given k) ∙ h))) o,
      given,
    )
