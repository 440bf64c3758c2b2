-- ===== src/Container/Dictionary/Append.antt =====
-- What the dictionary finds after a string is appended.
use sc_memory_knowledge_sync.Container.Dictionary.{
  offset_of, get_child, node, no_child, Node, Children, append, descend, set_child,
}
use sc_memory_knowledge_sync.Base.{
  refl, [], inr, zero, inl, ap, arith, Option-cases, ◌⊎◌, ◌∷◌, some, suc, none, ◌≡◌, Option, Str, ℕ,
}

module _ {A : Type 0} (char_to_int : ℕ → ℕ) where
  -- The child at which an append of a first byte and others ends.
  abbrev pub IsChild : ℕ → ℕ → Str → A → Children A → Node A → Type 0
  IsChild rounds c s v cs m =
      ((get_child (char_to_int c) cs ≡ none) × (m ≡ node (c ∷ s) (some v) no_child))
      ⊎ ((n : Node A) × ((get_child (char_to_int c) cs ≡ some n)
            × (append char_to_int rounds (descend char_to_int c s n).0 v
                  (descend char_to_int c s n).1
                ≡ some m)))

  pub append-IsChild :
      (rounds c : ℕ) (s : Str) (v : A) (o : Str) (d : Option A) (cs : Children A) (n' : Node A)
      → append char_to_int (suc rounds) (c ∷ s) v (node o d cs) ≡ some n'
      → (m : Node A) × ((n' ≡ node o d (set_child (char_to_int c) m cs))
          × IsChild rounds c s v cs m)
  unfolding append
  append-IsChild rounds c s v o d cs n' h = elim (Option-cases (get_child (char_to_int c) cs)) [
    | inl e ↦ (node (c ∷ s) (some v) no_child, (ground arith, inl (e, refl)))
    | inr (n, e) ↦
        elim (Option-cases (
          append char_to_int rounds (descend char_to_int c s n).0 v
            (descend char_to_int c s n).1)) [
              | inl stopped ↦ ground arith
              | inr (m, goes) ↦ (m, (ground arith, inr (n, (e, goes))))
            ]
  ]

  -- A node keeps its offset.
  pub offset-append :
      (rounds : ℕ) (s : Str) (v : A) (n n' : Node A)
      → append char_to_int rounds s v n ≡ some n'
      → offset_of n' ≡ offset_of n
  unfolding append
  offset-append zero s v n n' h = ground arith
  offset-append (suc rounds) [] v (node o d cs) n' h =
      let same : n' ≡ node o (some v) cs = ground arith in ap offset_of same
  offset-append (suc rounds) (c ∷ s) v (node o d cs) n' h =
      let (m, (same, _)) = append-IsChild rounds c s v o d cs n' h in ap offset_of same
