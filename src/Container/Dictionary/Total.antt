-- ===== src/Container/Dictionary/Total.antt =====
-- An append ends: every round takes a byte of the string at least.
use mathlib.Core.List.{tail-eq_of_cons-eq}
use sc_memory_knowledge_sync.Container.Dictionary.{
  set_child, get_child, offset_of, node, no_child, Node, Children, append, descend, split,
}
use sc_memory_knowledge_sync.Container.Dictionary.Append.{append-IsChild, IsChild, offset-append}
use sc_memory_knowledge_sync.Container.Dictionary.Descend.{
  all_behind, offset-descend, string-descend, descend-IsTree,
}
use sc_memory_knowledge_sync.Container.Dictionary.Trees.{
  are_trees, is_tree, starts, IsTree, get_child-IsTree, set_child-are_trees, is_byte,
}
use sc_memory_knowledge_sync.Base.{
  length-append, ◌+◌, sym, Option-cases, ◌≤◌, length, zero, inr, inl, suc, ap, some, ◌∙◌, refl, [],
  ◌==◌, &&-true, ◌∷◌, arith, ◌++◌, true, all, ◌≡◌, Str, ◌<◌, Bool, ℕ,
}

all_front : (p : ℕ → Bool) (s t : Str) → all p (s ++ t) ≡ true → all p s ≡ true
all_front p [] t h = refl
all_front p (x ∷ s) t h =
    let (first, rest) = &&-true {a = p x} {b = all p (s ++ t)} h in rw first (all_front p s t rest)

split-first : (c : ℕ) (s o : Str) → (split (c ∷ s) (c ∷ o)).0 ≡ c ∷ (split s o).0
unfolding split
split-first c s o = let same : (c == c) ≡ true = ground arith in rw same refl

starts-first :
    (char_to_int : ℕ → ℕ) (c : ℕ) (o : Str)
    → is_byte c ≡ true
    → all is_byte o ≡ true
    → starts char_to_int (char_to_int c) (c ∷ o) ≡ true
unfolding starts
starts-first char_to_int c o b bs =
    let same : (char_to_int c == char_to_int c) ≡ true = ground arith in rw (same, b, bs) refl

module _ {A : Type 0} (char_to_int : ℕ → ℕ)
    (injective : (x y : ℕ) → x < 256 → y < 256 → char_to_int x ≡ char_to_int y → x ≡ y) where
  bytes-front :
      (k : ℕ) (n : Node A)
      → starts char_to_int k (offset_of n) ≡ true
      → all is_byte (offset_of n) ≡ true
  unfolding starts
  bytes-front k (node [] d cs) h = ground arith
  bytes-front k (node (x ∷ o) d cs) h =
      (&&-true {a = char_to_int x == k} {b = all is_byte (x ∷ o)} h).1

  -- The node where the string goes on starts with the first byte of the string.
  first-descend :
      (c : ℕ) (s : Str) (n : Node A)
      → is_byte c ≡ true
      → starts char_to_int (char_to_int c) (offset_of n) ≡ true
      → (o : Str) × (offset_of (descend char_to_int c s n).1 ≡ c ∷ o)
  unfolding starts split
  first-descend c s (node [] d cs) b h = ground arith
  first-descend c s (node (x ∷ o) d cs) b h =
      let (number, bytes) =
        &&-true {a = char_to_int x == char_to_int c} {b = all is_byte (x ∷ o)} h in
      let (byte, _) = &&-true {a = is_byte x} {b = all is_byte o} bytes in
      let x_eq : x ≡ c = injective x c (ground arith) (ground arith) (ground arith) in
      let part : (split (c ∷ s) (x ∷ o)).0 ≡ c ∷ (split s o).0 = rw x_eq (split-first c s o) in
      ((split s o).0, offset-descend char_to_int c s x o d cs ∙ part)

  -- What is left of the string behind that node.
  rest-descend :
      (c : ℕ) (s : Str) (n : Node A)
      → is_byte c ≡ true
      → starts char_to_int (char_to_int c) (offset_of n) ≡ true
      → (o : Str) × ((offset_of (descend char_to_int c s n).1 ≡ c ∷ o)
          × (s ≡ o ++ (descend char_to_int c s n).0))
  rest-descend c s n b h =
      let (o, first) = first-descend c s n b h in
      let whole : c ∷ s ≡ c ∷ (o ++ (descend char_to_int c s n).0) =
        string-descend char_to_int c s (char_to_int c) n h
        ∙ ap (λ p. p ++ (descend char_to_int c s n).0) first in
      (o, (first, tail-eq_of_cons-eq whole))

  -- What is left of the string is no longer than what stood behind the first byte, and is bytes too.
  rest-bytes :
      (c : ℕ) (s : Str) (n : Node A)
      → is_byte c ≡ true
      → all is_byte s ≡ true
      → starts char_to_int (char_to_int c) (offset_of n) ≡ true
      → (starts char_to_int (char_to_int c) (offset_of (descend char_to_int c s n).1) ≡ true)
        × ((all is_byte (descend char_to_int c s n).0 ≡ true)
            × (length (descend char_to_int c s n).0 ≤ length s))
  rest-bytes c s n b bs h =
      let (o, (first, parts)) = rest-descend c s n b h in
      let s' = (descend char_to_int c s n).0 in
      let bytes : all is_byte (o ++ s') ≡ true = ap (all is_byte) (sym parts) ∙ bs in
      let size : length s ≡ length o + length s' = ap length parts ∙ length-append o s' in
      (
        rw first (starts-first char_to_int c o b (all_front is_byte o s' bytes)),
        (all_behind is_byte o s' bytes, omega (arith, size)),
      )

  child-IsTree :
      (rounds c : ℕ) (s : Str) (v : A) (cs : Children A) (m : Node A)
      → is_byte c ≡ true
      → all is_byte s ≡ true
      → are_trees char_to_int cs ≡ true
      → IsChild char_to_int rounds c s v cs m
      → ((s' : Str) (n n' : Node A)
          → all is_byte s' ≡ true
          → IsTree char_to_int n
          → append char_to_int rounds s' v n ≡ some n'
          → IsTree char_to_int n')
      → (starts char_to_int (char_to_int c) (offset_of m) ≡ true) × IsTree char_to_int m
  unfolding is_tree
  child-IsTree rounds c s v cs m b bs trees (inl (_, leaf)) ih =
      rw leaf (starts-first char_to_int c s b bs, refl)
  child-IsTree rounds c s v cs m b bs trees (inr (n, (e, goes))) ih =
      let k = char_to_int c in
      let (first, tree) = get_child-IsTree char_to_int k cs n trees e in
      let (first', (bytes, _)) = rest-bytes c s n b bs first in
      let (s', n') = descend char_to_int c s n in
      (
        rw (offset-append char_to_int rounds s' v n' m goes) first',
        ih s' n' m bytes (descend-IsTree char_to_int c s k n first tree) goes,
      )

  pub append-IsTree :
      (rounds : ℕ) (s : Str) (v : A) (n n' : Node A)
      → all is_byte s ≡ true
      → IsTree char_to_int n
      → append char_to_int rounds s v n ≡ some n'
      → IsTree char_to_int n'
  unfolding append is_tree
  append-IsTree zero s v n n' bs tree h = ground arith
  append-IsTree (suc rounds) [] v (node o d cs) n' bs tree h =
      let same : n' ≡ node o (some v) cs = ground arith in rw same tree
  append-IsTree (suc rounds) (c ∷ s) v (node o d cs) n' bs tree h =
      let (b, rest) = &&-true {a = is_byte c} {b = all is_byte s} bs in
      let (m, (same, below)) = append-IsChild char_to_int rounds c s v o d cs n' h in
      let (first, subtree) =
        child-IsTree rounds c s v cs m b rest tree below
          (λ s' n n'. append-IsTree rounds s' v n n') in
      rw same (set_child-are_trees char_to_int (char_to_int c) m cs tree first subtree)

  pub append-ends :
      (rounds : ℕ) (s : Str) (v : A) (n : Node A)
      → length s < rounds
      → all is_byte s ≡ true
      → IsTree char_to_int n
      → (n' : Node A) × (append char_to_int rounds s v n ≡ some n')
  unfolding append is_tree
  append-ends zero s v n enough bs tree = ground arith
  append-ends (suc rounds) [] v (node o d cs) enough bs tree = (node o (some v) cs, refl)
  append-ends (suc rounds) (c ∷ s) v (node o d cs) enough bs tree =
      let (b, rest) = &&-true {a = is_byte c} {b = all is_byte s} bs in
      let k = char_to_int c in
      elim (Option-cases (get_child k cs)) [
        | inl e ↦ (node o d (set_child k (node (c ∷ s) (some v) no_child) cs), rw (append, e) refl)
        | inr (n, e) ↦
            let (first, subtree) = get_child-IsTree char_to_int k cs n tree e in
            let (_, (bytes, size)) = rest-bytes c s n b rest first in
            let (m, goes) =
              append-ends rounds (descend char_to_int c s n).0 v (descend char_to_int c s n).1
                (omega (arith, size, enough)) bytes
                (descend-IsTree char_to_int c s k n first subtree) in
            (node o d (set_child k m cs), rw (append, e, goes) refl)
      ]
