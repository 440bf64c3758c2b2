-- ===== src/Container/Queue.antt =====
-- The queue in a circular buffer, sc_queue.c. The sizes are numbers: the code's are 32-bit integers
-- with a sign, which do not overflow as long as a buffer of 2 ^ 31 pointers does not fit in memory.
pub mod Indices
pub mod Shape
pub mod Contents
use sc_memory_knowledge_sync.Base.{◌-◌, ◌==◌, ltb, Bool, if◌then◌else◌, ◌%◌, ◌+◌, ℕ}

-- `_sc_queue`. `after_back` is the code's `back` plus one, as `back` is -1 at first.
pub record Queue {ℓ} (A : Type ℓ) : Type ℓ where
  pub items : ℕ → A
  pub front : ℕ
  pub after_back : ℕ
  pub size : ℕ
  pub capacity : ℕ

abbrev pub initial_capacity : ℕ
initial_capacity = 4

abbrev pub resize_increment : ℕ
resize_increment = 12

module _ {ℓ} {A : Type ℓ} (null : A) where
  abbrev pub new_queue : Queue A
  new_queue = record {
    items = λ i. null;
    front = 0;
    after_back = 0;
    size = 0;
    capacity = initial_capacity;
  }

  -- The two copies of `sc_queue_resize`, or its one.
  abbrev pub copied : Queue A → ℕ → A
  copied q i =
      if ltb q.front q.after_back
      then (if ltb i q.size then q.items (q.front + i) else null)
      else if ltb i (q.capacity - q.front)
      then q.items (q.front + i)
      else if ltb i (q.capacity - q.front + q.after_back)
      then q.items (i - (q.capacity - q.front))
      else null

  unfoldable pub resize : Queue A → Queue A
  resize q = record {
    items = copied q;
    front = 0;
    after_back = q.size;
    size = q.size;
    capacity = q.capacity + resize_increment;
  }

  abbrev pub put : A → Queue A → Queue A
  put x q =
      let back = q.after_back % q.capacity in
      record q {
        items = λ i. if i == back then x else q.items i;
        after_back = back + 1;
        size = q.size + 1;
      }

  unfoldable pub push : A → Queue A → Queue A
  unfolding resize
  push x q = put x (if q.size == q.capacity then resize q else q)

  unfoldable pub pop : Queue A → A × Queue A
  pop q =
      if q.size == 0
      then (null, q)
      else (q.items q.front, record q { front = (q.front + 1) % q.capacity; size = q.size - 1 })

  unfoldable pub front_of : Queue A → A
  front_of q = if q.size == 0 then null else q.items q.front

abbrev pub is_empty_queue {ℓ} : {A : Type ℓ} → Queue A → Bool
is_empty_queue q = q.size == 0
