-- ===== src/Scs/Parser/Contour/Members.antt =====
-- The new elements of a contour: an ordered set of handles of elements.
-- Every element stands in the container of its visibility.
use native.Mathlib.Nat.{mod-eq_of_lt}
use sc_memory_knowledge_sync.Scs.Parser.Element.{
  ParsedTriple, lt_handle, local, ElementHandle, ParsedElement,
}
use sc_memory_knowledge_sync.Scs.Parser.State.{
  get_container_by_element_visibility, find_element, Parser,
}
use sc_memory_knowledge_sync.Base.{
  sym, refl, zero, inr, [], ◌∙◌, inl, suc, arith, ap, length, Bool-cases, ◌+◌, ◌<◌, subst, ◌∷◌, ◌^◌,
  drop, some, ◌%◌, get_elem?, ◌≢◌, ◌≡◌, ℕ, List,
}
use sc_memory_knowledge_sync.Scs.Parser.Invariant.{IsKnownTriple, IsKnown, IsConsistent, All}
use sc_memory_knowledge_sync.Scs.Parser.Contour.{
  new_elements, insert_triples, insert_elements, insert_handle,
}
use sc_memory_knowledge_sync.Scs.Parser.Triple.Changes.{some-eq}
use sc_memory_knowledge_sync.Scs.Parser.Store.{HasRoom}

abbrev pub IsInLocal : ParsedElement → Type 0
IsInLocal e = e.visibility ≡ local

abbrev pub IsInGlobal : ParsedElement → Type 0
IsInGlobal e = e.visibility ≢ local

pub record IsPlaced (p : Parser) : Type 0 where
  pub elements : All IsInGlobal p.parsed_elements
  pub locals : All IsInLocal p.parsed_elements_local

All-get_elem? :
    (P : ParsedElement → Type 0) (xs : List ParsedElement) (i : ℕ) (x : ParsedElement)
    → All P xs
    → get_elem? xs i ≡ some x
    → P x
All-get_elem? P [] i x h e = cc
All-get_elem? P (y ∷ xs) zero x h e = subst P (some-eq y x e) h.0
All-get_elem? P (y ∷ xs) (suc i) x h e = All-get_elem? P xs i x h.1 e

get_elem?-length :
    (xs : List ParsedElement) (i : ℕ) (x : ParsedElement) → get_elem? xs i ≡ some x → i < length xs
get_elem?-length [] i x e = cc
get_elem?-length (y ∷ xs) zero x e = omega arith
get_elem?-length (y ∷ xs) (suc i) x e = omega (arith, get_elem?-length xs i x e)

get_elem?-drop :
    (n : ℕ) (xs : List ParsedElement) (i : ℕ) → get_elem? (drop n xs) i ≡ get_elem? xs (n + i)
get_elem?-drop zero xs i = ap (get_elem? xs) (omega arith)
get_elem?-drop (suc n) [] i = refl
get_elem?-drop (suc n) (x ∷ xs) i =
    get_elem?-drop n xs i ∙ ap (get_elem? (x ∷ xs)) {x = suc (n + i)} (omega arith)

-- The handle that the contour takes for an element at a place.
abbrev handle_at : ℕ → ParsedElement → ElementHandle
handle_at i e = record {
  id = i % 2 ^ 32;
  visibility = e.visibility;
  is_element_type = e.is_element_type;
}

module _ (P : ElementHandle → Type 0) where
  pub insert_handle-All :
      (h : ElementHandle) (set : List ElementHandle) → P h → All P set → All P (insert_handle h set)
  unfolding insert_handle
  insert_handle-All h [] k all = (k, tt)
  insert_handle-All h (x ∷ xs) k all = elim (Bool-cases (lt_handle h x)) [
    | inl e ↦ rw e (k, all)
    | inr e ↦ rw e (elim (Bool-cases (lt_handle x h)) [
      | inl d ↦ rw d (all.0, insert_handle-All h xs k all.1)
      | inr d ↦ rw d all
    ])
  ]

  insert_elements-All :
      (i : ℕ) (es : List ParsedElement) (set : List ElementHandle)
      → ((j : ℕ) (e : ParsedElement) → get_elem? es j ≡ some e → P (handle_at (i + j) e))
      → All P set
      → All P (insert_elements i es set)
  unfolding insert_elements
  insert_elements-All i [] set f all = all
  insert_elements-All i (e ∷ es) set f all =
      let here : P (handle_at i e) =
        subst (λ n. P (handle_at n e)) {x = i + 0} (omega arith) (f 0 e refl) in
      insert_elements-All (i + 1) es (insert_handle (handle_at i e) set)
        (λ j x g. subst (λ n. P (handle_at n x)) {x = i + suc j} (omega arith) (f (suc j) x g))
        (insert_handle-All (handle_at i e) set here all)

  insert_triples-All :
      (ts : List ParsedTriple) (set : List ElementHandle)
      → All (λ t. P t.source × P t.connector × P t.target) ts
      → All P set
      → All P (insert_triples ts set)
  unfolding insert_triples
  insert_triples-All [] set k all = all
  insert_triples-All (t ∷ ts) set ((s, c, g), k) all =
      let with_source = insert_handle-All t.source set s all in
      let with_connector =
        insert_handle-All t.connector (insert_handle t.source set) c with_source in
      insert_triples-All ts _ k (insert_handle-All t.target _ g with_connector)

All-drop {ℓ} : {A : Type 0} (P : A → Type ℓ) (n : ℕ) (xs : List A) → All P xs → All P (drop n xs)
All-drop P zero xs h = h
All-drop P (suc n) [] h = h
All-drop P (suc n) (x ∷ xs) h = All-drop P n xs h.1

module _ (p : Parser) (room : HasRoom p) (placed : IsPlaced p) where
  global-IsKnown :
      (i : ℕ) (e : ParsedElement)
      → get_elem? p.parsed_elements i ≡ some e
      → IsKnown p (handle_at i e)
  unfolding find_element get_container_by_element_visibility
  global-IsKnown i e f =
      let bound = get_elem?-length p.parsed_elements i e f in
      let word : i % 2 ^ 32 ≡ i = mod-eq_of_lt (omega (arith, bound, room.0)) in
      let kind = All-get_elem? IsInGlobal p.parsed_elements i e placed.elements f in
      (e, rw word (ground arith))

  local-IsKnown :
      (i : ℕ) (e : ParsedElement)
      → get_elem? p.parsed_elements_local i ≡ some e
      → IsKnown p (handle_at i e)
  unfolding find_element get_container_by_element_visibility
  local-IsKnown i e f =
      let bound = get_elem?-length p.parsed_elements_local i e f in
      let word : i % 2 ^ 32 ≡ i = mod-eq_of_lt (omega (arith, bound, room.1)) in
      let kind = All-get_elem? IsInLocal p.parsed_elements_local i e placed.locals f in
      (e, rw word (ground arith))

  -- In a consistent parser with room, whose elements stand in the containers of their visibilities,
  -- all handles that the end of a contour takes for new elements are handles of elements.
  pub new_elements-IsKnown :
      (first first_local first_triple : ℕ)
      → IsConsistent p
      → All (IsKnown p) (new_elements first first_local first_triple p)
  unfolding new_elements
  new_elements-IsKnown first first_local first_triple c =
      insert_triples-All (IsKnown p) (drop first_triple p.parsed_triples) _
        (All-drop (IsKnownTriple p) first_triple p.parsed_triples c.triples)
        (insert_elements-All (IsKnown p) first_local (drop first_local p.parsed_elements_local) _
          (λ j e f.
            local-IsKnown (first_local + j) e
              (sym (get_elem?-drop first_local p.parsed_elements_local j) ∙ f))
          (insert_elements-All (IsKnown p) first (drop first p.parsed_elements) []
            (λ j e f.
              global-IsKnown (first + j) e (sym (get_elem?-drop first p.parsed_elements j) ∙ f))
            tt))
