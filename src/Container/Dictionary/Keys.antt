-- ===== src/Container/Dictionary/Keys.antt =====
-- The search for a key, whose last node is compared with the end of the string.
use sc_memory_knowledge_sync.Container.Dictionary.{
  offset_of, strip, node, child, no_child, Node, Children, get_last_node, get_last_child,
  get_by_key, data_of, is_end,
}
use sc_memory_knowledge_sync.Container.Dictionary.Lookup.{find, find_child}
use mathlib.Core.List.{append-nil, append_assoc}
use sc_memory_knowledge_sync.Base.{
  sym, inr, Option-cases, inl, ◌==◌, ◌∙◌, str_eq_refl, Bool-cases, refl, ◌-◌, ap, arith, [], true,
  ◌∷◌, ◌+◌, some, ◌++◌, drop, length, ◌≡◌, ℕ, Str,
}

strip-whole : (o s r : Str) → strip o s ≡ some r → s ≡ o ++ r
unfolding strip
strip-whole [] s r h = ground arith
strip-whole (x ∷ o) [] r h = ground arith
strip-whole (x ∷ o) (c ∷ s) r h = elim (Bool-cases (x == c)) [
  | inl e ↦
      let rest : strip o s ≡ some r = ground arith in
      let same : c ≡ x = ground arith in
      ap (λ y. y ∷ s) same ∙ ap (λ t. x ∷ t) (strip-whole o s r rest)
  | inr e ↦ ground arith
]

pub length-append : (p o : Str) → length (p ++ o) ≡ length p + length o
length-append [] o = omega arith
length-append (x ∷ p) o = omega (arith, length-append p o)

drop-front : (p o : Str) → drop (length p) (p ++ o) ≡ o
drop-front [] o = refl
drop-front (x ∷ p) o = drop-front p o

is_end-append : (p o : Str) → is_end (p ++ o) o ≡ true
is_end-append p [] = refl
is_end-append p (x ∷ o) =
    let start : length (p ++ (x ∷ o)) - length (x ∷ o) ≡ length p =
      rw (length-append p (x ∷ o)) (omega arith) in
    rw (start, drop-front p (x ∷ o), str_eq_refl (x ∷ o)) refl

module _ {A : Type 0} (char_to_int : ℕ → ℕ) (string : Str) where
  mutual
    unfolding find get_last_node

    data_of-get_last_node :
        (p s : Str) (n : Node A)
        → string ≡ (p ++ offset_of n) ++ s
        → data_of char_to_int (get_last_node char_to_int string s n) ≡ find char_to_int s n
    data_of-get_last_node p [] (node o d cs) h =
        let ends : is_end string o ≡ true =
          ap (λ w. is_end w o) (h ∙ append-nil (p ++ o)) ∙ is_end-append p o in
        rw ends refl
    data_of-get_last_node p (c ∷ s) (node o d cs) h =
        data_of-get_last_child (p ++ o) (char_to_int c) (c ∷ s) cs h

    data_of-get_last_child :
        (p : Str) (k : ℕ) (s : Str) (cs : Children A)
        → string ≡ p ++ s
        → data_of char_to_int (get_last_child char_to_int string k s cs)
          ≡ find_child char_to_int k s cs
    data_of-get_last_child p k s no_child h = refl
    data_of-get_last_child p k s (child k' n cs) h = elim (Bool-cases (k' == k)) [
      | inl e ↦ elim (Option-cases (strip (offset_of n) s)) [
        | inl e' ↦ rw (e, e') refl
        | inr (r, e') ↦
            rw (e, e')
              (data_of-get_last_node p r n (
                h
                ∙ ap (λ w. p ++ w) (strip-whole (offset_of n) s r e')
                ∙ sym (append_assoc p (offset_of n) r)))
      ]
      | inr e ↦ rw e (data_of-get_last_child p k s cs h)
    ]

  pub get_by_key-find :
      (n : Node A) → offset_of n ≡ [] → get_by_key char_to_int string n ≡ find char_to_int string n
  unfolding get_by_key
  get_by_key-find n h = data_of-get_last_node [] string n (rw h refl)
