-- ===== src/Container/Dictionary/Descend.antt =====
-- The way of an append down to a child.
use sc_memory_knowledge_sync.Container.Dictionary.{
  Children, offset_of, node, branch, Node, split, descend,
}
use sc_memory_knowledge_sync.Container.Dictionary.Prefixes.{split-string, split-offset}
use sc_memory_knowledge_sync.Container.Dictionary.Trees.{
  is_tree, starts, IsTree, branch-IsTree, is_byte,
}
use sc_memory_knowledge_sync.Base.{
  Option, ◌∙◌, ap, [], ◌==◌, sym, some, subst, &&-true, arith, ◌∷◌, true, ◌≡◌, ◌++◌, all, Str, Bool,
  ℕ,
}
use sc_memory_knowledge_sync.Container.Dictionary.Lookup.{onward}
use sc_memory_knowledge_sync.Container.Dictionary.Branch.{onward-branch, offset-branch}

pub all_behind : (p : ℕ → Bool) (s t : Str) → all p (s ++ t) ≡ true → all p t ≡ true
all_behind p [] t h = h
all_behind p (x ∷ s) t h = all_behind p s t (&&-true {a = p x} {b = all p (s ++ t)} h).1

module _ {A : Type 0} (char_to_int : ℕ → ℕ) (c : ℕ) (s : Str) where
  pub offset-descend :
      (x : ℕ) (o : Str) (d : Option A) (cs : Children A)
      → offset_of (descend char_to_int c s (node (x ∷ o) d cs)).1 ≡ (split (c ∷ s) (x ∷ o)).0
  offset-descend x o d cs =
      let parts = split (c ∷ s) (x ∷ o) in
      subst (λ full. offset_of (branch char_to_int parts.0 parts.2 (node full d cs)) ≡ parts.0)
        (sym (split-offset (c ∷ s) (x ∷ o))) (offset-branch char_to_int parts.0 parts.2 d cs)

  -- The string is the offset of the node where it goes on, and what is left.
  pub string-descend :
      (k : ℕ) (n : Node A)
      → starts char_to_int k (offset_of n) ≡ true
      → c ∷ s ≡ offset_of (descend char_to_int c s n).1 ++ (descend char_to_int c s n).0
  unfolding starts
  string-descend k (node [] d cs) h = ground arith
  string-descend k (node (x ∷ o) d cs) h =
      let parts = split (c ∷ s) (x ∷ o) in
      split-string (c ∷ s) (x ∷ o) ∙ ap (λ p. p ++ parts.1) (sym (offset-descend x o d cs))

  pub onward-descend :
      (k : ℕ) (t : Str) (n : Node A)
      → starts char_to_int k (offset_of n) ≡ true
      → onward char_to_int t (some (descend char_to_int c s n).1) ≡ onward char_to_int t (some n)
  unfolding starts
  onward-descend k t (node [] d cs) h = ground arith
  onward-descend k t (node (x ∷ o) d cs) h =
      let parts = split (c ∷ s) (x ∷ o) in
      subst
        (λ full.
          onward char_to_int t (some (branch char_to_int parts.0 parts.2 (node full d cs)))
          ≡ onward char_to_int t (some (node full d cs)))
        (sym (split-offset (c ∷ s) (x ∷ o))) (onward-branch char_to_int t parts.0 parts.2 d cs)

  pub descend-IsTree :
      (k : ℕ) (n : Node A)
      → starts char_to_int k (offset_of n) ≡ true
      → IsTree char_to_int n
      → IsTree char_to_int (descend char_to_int c s n).1
  unfolding starts is_tree
  descend-IsTree k (node [] d cs) h tree = ground arith
  descend-IsTree k (node (x ∷ o) d cs) h tree =
      let parts = split (c ∷ s) (x ∷ o) in
      let whole = split-offset (c ∷ s) (x ∷ o) in
      let bytes : all is_byte (x ∷ o) ≡ true =
        (&&-true {a = char_to_int x == k} {b = all is_byte (x ∷ o)} h).1 in
      subst (λ full. IsTree char_to_int (branch char_to_int parts.0 parts.2 (node full d cs)))
        (sym whole)
        (branch-IsTree char_to_int parts.0 parts.2 d cs
          (all_behind is_byte parts.0 parts.2 (ap (all is_byte) (sym whole) ∙ bytes)) tree)
