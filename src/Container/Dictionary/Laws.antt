-- ===== src/Container/Dictionary/Laws.antt =====
-- What the dictionary finds after a string is appended.
use sc_memory_knowledge_sync.Container.Dictionary.{
  set_child, get_child, strip, offset_of, node, no_child, Node, Children, append, descend,
}
use sc_memory_knowledge_sync.Container.Dictionary.Prefixes.{str_eq-strip, equal_rest}
use sc_memory_knowledge_sync.Container.Dictionary.Append.{append-IsChild, IsChild, offset-append}
use sc_memory_knowledge_sync.Container.Dictionary.Descend.{
  string-descend, onward-descend, descend-IsTree,
}
use sc_memory_knowledge_sync.Container.Dictionary.Trees.{
  are_trees, is_tree, IsTree, get_child-IsTree,
}
use sc_memory_knowledge_sync.Container.Dictionary.Lookup.{
  get_child-set_child, find_child-get_child, find, onward,
}
use mathlib.Core.List.{append-nil}
use sc_memory_knowledge_sync.Base.{
  zero, false, ◌==◌, Bool-cases, inr, Option-cases, inl, ◌∙◌, sym, refl, ap, suc, ◌++◌, ◌∷◌, arith,
  true, none, [], if◌then◌else◌, ◌≡◌, some, Option, str_eq, Str, ℕ,
}

-- The data under the string that was appended, and what was there before under every other string.
abbrev pub updated {ℓ} : {A : Type ℓ} → Str → Str → A → Option A → Option A
updated t s v before = if str_eq t s then some v else before

module _ {A : Type 0} (char_to_int : ℕ → ℕ) where
  find-leaf :
      (o r : Str) (v : A) → find char_to_int r (node o (some v) no_child) ≡ updated r [] v none
  unfolding find str_eq
  find-leaf o [] v = refl
  find-leaf o (e ∷ r) v = refl

  onward-leaf :
      (s t : Str) (v : A)
      → onward char_to_int t (some (node s (some v) no_child)) ≡ updated t s v none
  onward-leaf s t v =
      let whole = append-nil s in
      let test : str_eq t s ≡ equal_rest [] (strip s t) =
        ap (str_eq t) (sym whole) ∙ str_eq-strip s [] t in
      elim (Option-cases (strip s t)) [
        | inl e ↦ rw (test, e) refl
        | inr (r, e) ↦ rw (test, e) (find-leaf s r v)
      ]

  -- What a child finds when the node behind its offset finds it.
  onward-step :
      (s s' t : Str) (v : A) (n m : Node A)
      → s ≡ offset_of n ++ s'
      → offset_of m ≡ offset_of n
      → ((u : Str) → find char_to_int u m ≡ updated u s' v (find char_to_int u n))
      → onward char_to_int t (some m) ≡ updated t s v (onward char_to_int t (some n))
  onward-step s s' t v n m parts same ih =
      let test : str_eq t s ≡ equal_rest s' (strip (offset_of n) t) =
        ap (str_eq t) parts ∙ str_eq-strip (offset_of n) s' t in
      elim (Option-cases (strip (offset_of n) t)) [
        | inl e ↦ rw (same, test, e) refl
        | inr (u, e) ↦ rw (same, test, e) (ih u)
      ]

  onward-child :
      (rounds c : ℕ) (s t : Str) (v : A) (cs : Children A) (m : Node A)
      → are_trees char_to_int cs ≡ true
      → IsChild char_to_int rounds c s v cs m
      → ((u s' : Str) (n n' : Node A)
          → IsTree char_to_int n
          → append char_to_int rounds s' v n ≡ some n'
          → find char_to_int u n' ≡ updated u s' v (find char_to_int u n))
      → onward char_to_int t (some m)
        ≡ updated t (c ∷ s) v (onward char_to_int t (get_child (char_to_int c) cs))
  onward-child rounds c s t v cs m trees (inl (e, same)) ih = rw (e, same) (onward-leaf (c ∷ s) t v)
  onward-child rounds c s t v cs m trees (inr (n, (e, goes))) ih =
      let (first, tree) = get_child-IsTree char_to_int (char_to_int c) cs n trees e in
      let (s', n') = descend char_to_int c s n in
      let k = char_to_int c in
      rw (e, sym (onward-descend char_to_int c s k t n first))
        (onward-step (c ∷ s) s' t v n' m (string-descend char_to_int c s k n first)
          (offset-append char_to_int rounds s' v n' m goes)
          (λ u. ih u s' n' m (descend-IsTree char_to_int c s k n first tree) goes))

  pub find-append :
      (rounds : ℕ) (t s : Str) (v : A) (n n' : Node A)
      → IsTree char_to_int n
      → append char_to_int rounds s v n ≡ some n'
      → find char_to_int t n' ≡ updated t s v (find char_to_int t n)
  unfolding find append is_tree str_eq
  find-append zero t s v n n' tree h = ground arith
  find-append (suc rounds) [] [] v (node o d cs) n' tree h =
      let same : n' ≡ node o (some v) cs = ground arith in rw same refl
  find-append (suc rounds) (e ∷ t) [] v (node o d cs) n' tree h =
      let same : n' ≡ node o (some v) cs = ground arith in rw same refl
  find-append (suc rounds) [] (c ∷ s) v (node o d cs) n' tree h =
      let (m, (same, _)) = append-IsChild char_to_int rounds c s v o d cs n' h in rw same refl
  find-append (suc rounds) (e ∷ t) (c ∷ s) v (node o d cs) n' tree h =
      let (m, (same, below)) = append-IsChild char_to_int rounds c s v o d cs n' h in
      let k = char_to_int c in
      let j = char_to_int e in
      rw
        (
          same,
          find_child-get_child char_to_int j (e ∷ t) (set_child k m cs),
          find_child-get_child char_to_int j (e ∷ t) cs,
          get_child-set_child char_to_int k j m cs,
        )
        (elim (Bool-cases (k == j)) [
          | inl there ↦
              let k_eq : k ≡ j = ground arith in
              rw (there, sym k_eq)
                (onward-child rounds c s (e ∷ t) v cs m tree below
                  (λ u s' n n'. find-append rounds u s' v n n'))
          | inr elsewhere ↦
              let other : (e == c) ≡ false = elim (Bool-cases (e == c)) [
                | inl is ↦ let twice : j ≡ k = ap char_to_int (ground arith) in ground arith
                | inr is_not ↦ is_not
              ] in
              rw (elsewhere, other) refl
        ])
