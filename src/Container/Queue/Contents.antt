-- ===== src/Container/Queue/Contents.antt =====
-- The queue as a list.
use native.Mathlib.Nat.{mod-add-mod, mod-eq_of_lt, mod-lt}
use sc_memory_knowledge_sync.Base.{
  sym, ◌==◌, inr, inl, Bool-cases, ◌∙◌, arith, ◌%◌, ◌-◌, ◌++◌, ap, ◌∷◌, ◌+◌, ◌≡◌, [], suc, ◌<◌,
  List, ℕ,
}
use sc_memory_knowledge_sync.Container.Queue.{pop, push, resize, Queue}
use sc_memory_knowledge_sync.Container.Queue.Indices.{tabulate-ext, tabulate}
use sc_memory_knowledge_sync.Container.Queue.Shape.{
  contents, IsQueue, put-IsQueue, contents-put, resize-IsQueue, contents-resize,
}

module _ {ℓ} {A : Type ℓ} (null : A) where
  -- A push on a well-formed queue puts an element behind the others, whether the buffer is full, and
  -- grows, or not; the queue stays well-formed.
  pub contents-push :
      (x : A) (q : Queue A)
      → IsQueue q
      → IsQueue (push null x q) × (contents (push null x q) ≡ contents q ++ x ∷ [])
  unfolding push
  contents-push x q i = elim (Bool-cases (q.size == q.capacity)) [
    | inl e ↦
        let full : q.size ≡ q.capacity = ground arith in
        rw (push, e)
          (
            put-IsQueue null x (resize null q) (resize-IsQueue null q i) (omega (arith, i.fits)),
            contents-put null x (resize null q) (resize-IsQueue null q i) (omega (arith, i.fits))
                ∙ ap (λ l. l ++ x ∷ []) (contents-resize null q i full),
          )
    | inr e ↦
        let fits = i.fits in
        let room : q.size < q.capacity = ground arith in
        rw (push, e) (put-IsQueue null x q i room, contents-put null x q i room)
  ]

  abbrev pub first : List A → A
  first [] = null
  first (x ∷ xs) = x

  abbrev pub others : List A → List A
  others [] = []
  others (x ∷ xs) = xs

  -- A pop from a well-formed queue takes the first element, or gives the null pointer and changes nothing
  -- if there is none; the queue stays well-formed.
  pub contents-pop :
      (q : Queue A)
      → IsQueue q
      → ((pop null q).0 ≡ first (contents q))
        × IsQueue (pop null q).1
        × (contents (pop null q).1 ≡ others (contents q))
  unfolding pop
  contents-pop q i = elim (Bool-cases (q.size == 0)) [
    | inl e ↦
        let zero_size : q.size ≡ 0 = ground arith in
        let none_held = ap (λ n. tabulate n cell) zero_size in
        rw (pop, e) (sym (ap first none_held), i, none_held ∙ sym (ap others none_held))
    | inr e ↦
        let some_size : q.size ≡ suc (q.size - 1) = ground arith in
        let held = ap (λ n. tabulate n cell) some_size in
        rw (pop, e)
          (
            ap q.items start ∙ sym (ap first held),
            popped (ground arith),
            tabulate-ext (q.size - 1) _ (λ j. cell (suc j)) (λ j l. ap q.items (moved j))
                ∙ sym (ap others held),
          )
  ]
    where
      cell : ℕ → A
      cell j = q.items ((q.front + j) % q.capacity)

      start : q.front ≡ (q.front + 0) % q.capacity
      start =
          let unit : q.front ≡ q.front + 0 = omega arith in
          sym (mod-eq_of_lt i.front_fits) ∙ ap (λ n. n % q.capacity) unit

      moved :
          (j : ℕ) → ((q.front + 1) % q.capacity + j) % q.capacity ≡ (q.front + suc j) % q.capacity
      moved j =
          let same : q.front + 1 + j ≡ q.front + suc j = omega arith in
          mod-add-mod (q.front + 1) q.capacity j ∙ ap (λ n. n % q.capacity) same

      popped :
          0 < q.size → IsQueue (record q { front = (q.front + 1) % q.capacity; size = q.size - 1 })
      popped l =
          let same : q.front + 1 + (q.size - 1) ≡ q.front + q.size = omega arith in
          record {
            fits = omega (arith, i.fits);
            some_room = i.some_room;
            front_fits = mod-lt (q.front + 1) i.some_room;
            back_fits = i.back_fits;
            full =
                i.full
                ∙ ap (λ n. n % q.capacity) (sym same)
                ∙ sym (mod-add-mod (q.front + 1) q.capacity (q.size - 1));
            started = ground (arith, i.started);
          }
