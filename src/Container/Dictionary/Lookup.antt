-- ===== src/Container/Dictionary/Lookup.antt =====
-- What a dictionary holds under a string.
use sc_memory_knowledge_sync.Base.{
  some, ◌≡◌, Option, Str, ℕ, [], ◌∷◌, none, false, ◌==◌, if◌then◌else◌, refl, arith, inl, inr,
  Bool-cases, Option-cases,
}
use sc_memory_knowledge_sync.Container.Dictionary.{
  node, no_child, child, set_child, Children, Node, get_child, strip, offset_of,
}

module _ {A : Type 0} (char_to_int : ℕ → ℕ) where
  -- The data at the end of a string, from a node on.
  unfoldable mutual
    unfolding strip

    pub find : Str → Node A → Option A
    find [] (node o d cs) = d
    find (c ∷ s) (node o d cs) = find_child (char_to_int c) (c ∷ s) cs

    pub find_child : ℕ → Str → Children A → Option A
    find_child k s no_child = none
    find_child k s (child k' n cs) =
        if k' == k
        then (elim (strip (offset_of n) s) [ none ↦ none | some rest ↦ find rest n ])
        else find_child k s cs

  -- The same behind what is left of a string, and at a child that may be missing.
  abbrev pub find_rest : Option Str → Node A → Option A
  find_rest none n = none
  find_rest (some rest) n = find rest n

  abbrev pub onward : Str → Option (Node A) → Option A
  onward s none = none
  onward s (some n) = find_rest (strip (offset_of n) s) n

  pub find_child-get_child :
      (k : ℕ) (s : Str) (cs : Children A) → find_child k s cs ≡ onward s (get_child k cs)
  unfolding find get_child
  find_child-get_child k s no_child = refl
  find_child-get_child k s (child k' n cs) = elim (Bool-cases (k' == k)) [
    | inl e ↦ elim (Option-cases (strip (offset_of n) s)) [
      | inl e' ↦ rw (e, e') refl
      | inr (r, e') ↦ rw (e, e') refl
    ]
    | inr e ↦ rw e (find_child-get_child k s cs)
  ]

  pub get_child-set_child :
      (j k : ℕ) (n : Node A) (cs : Children A)
      → get_child k (set_child j n cs) ≡ (if j == k then some n else get_child k cs)
  unfolding get_child set_child
  get_child-set_child j k n no_child = refl
  get_child-set_child j k n (child k' n' cs) =
      let ih = get_child-set_child j k n cs in
      elim (Bool-cases (k' == j)) [
        | inl e ↦ elim (Bool-cases (j == k)) [
          | inl e' ↦ rw (e, e') refl
          | inr e' ↦ let other : (k' == k) ≡ false = ground arith in rw (e, e', other) refl
        ]
        | inr e ↦ elim (Bool-cases (k' == k)) [
          | inl e' ↦ let other : (j == k) ≡ false = ground arith in rw (e, e', other) refl
          | inr e' ↦ rw (e, e') ih
        ]
      ]

  -- The data of a node do not depend on its offset.
  pub find-offset :
      (s o o' : Str) (d : Option A) (cs : Children A) → find s (node o d cs) ≡ find s (node o' d cs)
  unfolding find
  find-offset [] o o' d cs = refl
  find-offset (c ∷ s) o o' d cs = refl
