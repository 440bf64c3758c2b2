-- ===== src/Container/Dictionary/Trees.antt =====
-- The trees that a dictionary builds.
use sc_memory_knowledge_sync.Container.Dictionary.{
  offset_of, set_child, get_child, node, child, no_child, branch, Node, Children,
}
use sc_memory_knowledge_sync.Base.{
  refl, inr, inl, [], Bool-cases, ◌++◌, &&-true, arith, ◌&&◌, ◌==◌, all, some, ◌∷◌, Option, true,
  false, ltb, ◌≡◌, Str, Bool, ℕ,
}

-- A byte of a string; a zero ends it.
abbrev pub is_byte : ℕ → Bool
is_byte c = ltb 0 c && ltb c 256

module _ (char_to_int : ℕ → ℕ) where
  -- The offset of a child is not empty, and its first byte has the child's number.
  unfoldable pub starts : ℕ → Str → Bool
  starts k [] = false
  starts k (x ∷ o) = char_to_int x == k && all is_byte (x ∷ o)

module _ {A : Type 0} (char_to_int : ℕ → ℕ) where
  unfoldable mutual
    unfolding starts

    pub is_tree : Node A → Bool
    is_tree (node o d cs) = are_trees cs

    pub are_trees : Children A → Bool
    are_trees no_child = true
    are_trees (child k n cs) = starts char_to_int k (offset_of n) && is_tree n && are_trees cs

  abbrev pub IsTree : Node A → Type 0
  IsTree n = is_tree n ≡ true

  are_trees-child :
      (k : ℕ) (n : Node A) (cs : Children A)
      → are_trees (child k n cs) ≡ true
      → (starts char_to_int k (offset_of n) ≡ true) × (IsTree n × (are_trees cs ≡ true))
  unfolding is_tree
  are_trees-child k n cs h =
      let (both, rest) =
        &&-true {a = starts char_to_int k (offset_of n) && is_tree n} {b = are_trees cs} h in
      let (first, tree) = &&-true {a = starts char_to_int k (offset_of n)} {b = is_tree n} both in
      (first, (tree, rest))

  pub get_child-IsTree :
      (k : ℕ) (cs : Children A) (m : Node A)
      → are_trees cs ≡ true
      → get_child k cs ≡ some m
      → (starts char_to_int k (offset_of m) ≡ true) × IsTree m
  unfolding is_tree get_child
  get_child-IsTree k no_child m h e = ground arith
  get_child-IsTree k (child k' n cs) m h e =
      let (first, (tree, rest)) = are_trees-child k' n cs h in
      elim (Bool-cases (k' == k)) [
        | inl same ↦ let k_eq : k' ≡ k = ground arith in let n_eq : n ≡ m = ground arith in (cc, cc)
        | inr other ↦ get_child-IsTree k cs m rest (ground arith)
      ]

  pub set_child-are_trees :
      (k : ℕ) (m : Node A) (cs : Children A)
      → are_trees cs ≡ true
      → starts char_to_int k (offset_of m) ≡ true
      → IsTree m
      → are_trees (set_child k m cs) ≡ true
  unfolding is_tree set_child
  set_child-are_trees k m no_child h first tree = rw (first, tree) refl
  set_child-are_trees k m (child k' n cs) h first tree =
      let (first', (tree', rest)) = are_trees-child k' n cs h in
      elim (Bool-cases (k' == k)) [
        | inl same ↦ rw (same, first, tree) rest
        | inr other ↦ rw (other, first', tree') (set_child-are_trees k m cs rest first tree)
      ]

  -- The node between a node and its child.
  pub branch-IsTree :
      (common o : Str) (d : Option A) (cs : Children A)
      → all is_byte o ≡ true
      → are_trees cs ≡ true
      → IsTree (branch char_to_int common o (node (common ++ o) d cs))
  unfolding is_tree starts
  branch-IsTree common [] d cs b h = h
  branch-IsTree common (x ∷ o) d cs b h =
      let same : (char_to_int x == char_to_int x) ≡ true = ground arith in rw (same, b, h) refl
