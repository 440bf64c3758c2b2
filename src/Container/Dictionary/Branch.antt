-- ===== src/Container/Dictionary/Branch.antt =====
-- The node that an append puts between a node and its child.
use mathlib.Core.List.{append-nil}
use sc_memory_knowledge_sync.Container.Dictionary.{
  offset_of, Children, strip, node, child, no_child, branch,
}
use sc_memory_knowledge_sync.Base.{
  refl, arith, sym, true, inr, ◌==◌, Bool-cases, inl, none, Option-cases, [], ◌≡◌, some, ◌∷◌, ◌++◌,
  Option, Str, ℕ,
}
use sc_memory_knowledge_sync.Container.Dictionary.Lookup.{find-offset, onward, find_rest, find}
use sc_memory_knowledge_sync.Container.Dictionary.Prefixes.{strip-append}

module _ {A : Type 0} (char_to_int : ℕ → ℕ) where
  pub offset-branch :
      (common o : Str) (d : Option A) (cs : Children A)
      → offset_of (branch char_to_int common o (node (common ++ o) d cs)) ≡ common
  offset-branch common [] d cs = append-nil common
  offset-branch common (x ∷ o) d cs = refl

  -- Behind the common bytes, the new node sends what is left to the child.
  find-branch :
      (x : ℕ) (u o full : Str) (d : Option A) (cs : Children A)
      → find_rest char_to_int (strip (x ∷ o) u) (node full d cs)
        ≡ find char_to_int u (node [] none (child (char_to_int x) (node (x ∷ o) d cs) no_child))
  unfolding find strip
  find-branch x [] o full d cs = refl
  find-branch x (e ∷ u) o full d cs = elim (Bool-cases (x == e)) [
    | inl same ↦
        let k : (char_to_int x == char_to_int e) ≡ true = ground arith in
        elim (Option-cases (strip o u)) [
          | inl none_left ↦ rw (k, same, none_left) refl
          | inr (r, left) ↦ rw (k, same, left) (find-offset char_to_int r full (x ∷ o) d cs)
        ]
    | inr other ↦ elim (Bool-cases (char_to_int x == char_to_int e)) [
      | inl k ↦ rw (k, other) refl
      | inr k ↦ rw (k, other) refl
    ]
  ]

  pub onward-branch :
      (t common o : Str) (d : Option A) (cs : Children A)
      → onward char_to_int t (some (branch char_to_int common o (node (common ++ o) d cs)))
        ≡ onward char_to_int t (some (node (common ++ o) d cs))
  unfolding find
  onward-branch t common [] d cs = refl
  onward-branch t common (x ∷ o) d cs = elim (Option-cases (strip common t)) [
    | inl none_left ↦ rw (strip-append common (x ∷ o) t, none_left) refl
    | inr (u, left) ↦
        rw (strip-append common (x ∷ o) t, left) (sym (find-branch x u o (common ++ x ∷ o) d cs))
  ]
