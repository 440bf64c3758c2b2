-- ===== src/Container/Queue/Shape.antt =====
-- A queue and its list, when an element is put or the buffer grows.
use native.Mathlib.Nat.{mod-add-mod, mod-eq_of_lt, mod-lt}
use sc_memory_knowledge_sync.Base.{
  sym, false, true, ◌==◌, inr, ◌⊎◌, inl, ◌≤◌, Bool-cases, refl, ◌∙◌, arith, ◌%◌, ◌-◌, ◌++◌, ap, ◌∷◌,
  ◌+◌, ltb, ◌≡◌, [], if◌then◌else◌, suc, ◌<◌, List, ℕ,
}
use sc_memory_knowledge_sync.Container.Queue.{
  resize_increment, resize, copied, put, new_queue, Queue,
}
use sc_memory_knowledge_sync.Container.Queue.Indices.{
  tabulate-last, mod-index, tabulate-ext, index, tabulate,
}

-- What a queue holds, from the front to the back.
abbrev pub contents {ℓ} : {A : Type ℓ} → Queue A → List A
contents q = tabulate q.size (λ i. q.items ((q.front + i) % q.capacity))

-- The indices agree.
pub record IsQueue {ℓ} {A : Type ℓ} (q : Queue A) : Type ℓ where
  pub fits : q.size ≤ q.capacity
  pub some_room : 0 < q.capacity
  pub front_fits : q.front < q.capacity
  pub back_fits : q.after_back ≤ q.capacity
  pub full : q.after_back % q.capacity ≡ (q.front + q.size) % q.capacity
  pub started : q.size ≡ 0 ⊎ 0 < q.after_back

module _ {ℓ} {A : Type ℓ} (null : A) where
  new_queue-IsQueue : IsQueue (new_queue null)
  new_queue-IsQueue = record {
    fits = omega arith;
    some_room = omega arith;
    front_fits = omega arith;
    back_fits = omega arith;
    full = refl;
    started = inl refl;
  }

  pub put-IsQueue : (x : A) (q : Queue A) → IsQueue q → q.size < q.capacity → IsQueue (put null x q)
  put-IsQueue x q i room =
      let below : q.after_back % q.capacity < q.capacity = mod-lt q.after_back i.some_room in
      let next : q.front + q.size + 1 ≡ q.front + (q.size + 1) = omega arith in
      record {
        fits = omega arith;
        some_room = i.some_room;
        front_fits = i.front_fits;
        back_fits = omega arith;
        full =
            ap (λ b. (b + 1) % q.capacity) i.full
            ∙ mod-add-mod (q.front + q.size) q.capacity 1
            ∙ ap (λ n. n % q.capacity) next;
        started = inr (omega arith);
      }

  pub contents-put :
      (x : A) (q : Queue A)
      → IsQueue q
      → q.size < q.capacity
      → contents (put null x q) ≡ contents q ++ x ∷ []
  contents-put x q i room =
      let next : q.size + 1 ≡ suc q.size = omega arith in
      ap (λ n. tabulate n cell) next
      ∙ tabulate-last q.size cell
      ∙ ap (λ l. l ++ cell q.size ∷ [])
          (tabulate-ext q.size cell (λ j. q.items ((q.front + j) % q.capacity)) other)
      ∙ ap (λ y. contents q ++ y ∷ []) last
    where
      cell : ℕ → A
      cell j =
          if (q.front + j) % q.capacity == q.after_back % q.capacity
          then x
          else q.items ((q.front + j) % q.capacity)

      last : cell q.size ≡ x
      last =
          let same : ((q.front + q.size) % q.capacity == q.after_back % q.capacity) ≡ true =
            rw i.full (ground arith) in
          rw same refl

      other : (j : ℕ) → j < q.size → cell j ≡ q.items ((q.front + j) % q.capacity)
      other j l =
          let fit = i.front_fits in
          let differ : (index q.capacity (q.front + j) == index q.capacity (q.front + q.size))
              ≡ false =
            ground arith in
          let no : ((q.front + j) % q.capacity == q.after_back % q.capacity) ≡ false =
            rw
              (
                i.full,
                mod-index q.capacity (q.front + j) (omega arith),
                mod-index q.capacity (q.front + q.size) (omega arith),
              )
              differ in
          rw no refl

  -- A full buffer holds its elements in one piece, or in two.
  copied-index :
      (q : Queue A) (j : ℕ)
      → IsQueue q
      → q.size ≡ q.capacity
      → j < q.size
      → copied null q j ≡ q.items (index q.capacity (q.front + j))
  copied-index q j i e l =
      let fit = i.front_fits in
      let at_most = i.back_fits in
      let at : index q.capacity q.after_back ≡ q.front =
        sym (mod-index q.capacity q.after_back (omega arith))
        ∙ i.full
        ∙ ap (λ n. (q.front + n) % q.capacity) e
        ∙ mod-index q.capacity (q.front + q.capacity) (omega arith)
        ∙ ground arith in
      elim (Bool-cases (ltb q.front q.after_back)) [
        | inl one ↦
            let below : ltb j q.size ≡ true = ground arith in
            let same : q.front + j ≡ index q.capacity (q.front + j) = ground arith in
            rw (one, below) (ap q.items same)
        | inr two ↦ elim (Bool-cases (ltb j (q.capacity - q.front))) [
          | inl left ↦
              let same : q.front + j ≡ index q.capacity (q.front + j) = ground arith in
              rw (two, left) (ap q.items same)
          | inr right ↦
              let below : ltb j (q.capacity - q.front + q.after_back) ≡ true = ground arith in
              let same : j - (q.capacity - q.front) ≡ index q.capacity (q.front + j) =
                ground arith in
              rw (two, right, below) (ap q.items same)
        ]
      ]

  pub resize-IsQueue : (q : Queue A) → IsQueue q → IsQueue (resize null q)
  unfolding resize
  resize-IsQueue q i =
      let fits = i.fits in
      let zeroed : q.size ≡ 0 + q.size = omega arith in
      record {
        fits = omega arith;
        some_room = omega arith;
        front_fits = omega arith;
        back_fits = omega arith;
        full = ap (λ n. n % (q.capacity + resize_increment)) zeroed;
        started = ground arith;
      }

  pub contents-resize :
      (q : Queue A) → IsQueue q → q.size ≡ q.capacity → contents (resize null q) ≡ contents q
  unfolding resize
  contents-resize q i e = tabulate-ext q.size _ _ λ j l.
      let room = i.fits in
      let front = i.front_fits in
      let unit : 0 + j ≡ j = omega arith in
      ap (copied null q) (mod-eq_of_lt {n = 0 + j} (omega arith) ∙ unit)
      ∙ copied-index q j i e l
      ∙ sym (ap q.items (mod-index q.capacity (q.front + j) (omega arith)))
