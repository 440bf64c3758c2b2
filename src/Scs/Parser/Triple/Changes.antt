-- ===== src/Scs/Parser/Triple/Changes.antt =====
-- The single changes that `ProcessTriple` makes to a consistent parser.
use sc_memory_knowledge_sync.Base.{
  ap, sym, inr, inl, ◌++◌, Bool-cases, arith, ◌∙◌, ◌≡◌, Str, some, [], ◌∷◌, refl,
}
use sc_memory_knowledge_sync.Scs.Parser.State.{
  set_container, write_element, get_container_by_element_visibility, find_element, Parser,
}
use sc_memory_knowledge_sync.Scs.Parser.Element.{ParsedElement, ElementHandle}
use sc_memory_knowledge_sync.Scs.Parser.Triple.{insert_other_arc, insert_base_arc}
use sc_memory_knowledge_sync.Scs.Parser.Invariant.{
  Grows-IsKnown, Grows-others, IsKnownEntry, All-snoc, Grows-triples, Grows-Names, IsKnown,
  Grows-IsConsistent, Grows-refl, Grows-trans, IsConsistent, Grows,
}
use sc_memory_knowledge_sync.Scs.Parser.Store.{find_element-write, same_place-find, same_place}

-- What a change leaves: the elements with their identifiers, the triples, the names, the contours and
-- the counter.
pub record Changes (p q : Parser) : Type 0 where
  pub grows : Grows p q
  pub consistent : IsConsistent q
  pub triples : q.parsed_triples ≡ p.parsed_triples
  pub names : q.idtf_to_parsed_element ≡ p.idtf_to_parsed_element
  pub elements_stack : q.contour_elements_stack ≡ p.contour_elements_stack
  pub triples_stack : q.contour_triples_stack ≡ p.contour_triples_stack
  pub counter : q.idtf_counter ≡ p.idtf_counter

pub Changes-refl : (p : Parser) → IsConsistent p → Changes p p
Changes-refl p c = record {
  grows = Grows-refl p;
  consistent = c;
  triples = refl;
  names = refl;
  elements_stack = refl;
  triples_stack = refl;
  counter = refl;
}

pub Changes-trans : (p q r : Parser) → Changes p q → Changes q r → Changes p r
Changes-trans p q r a b = record {
  grows = Grows-trans p q r a.grows b.grows;
  consistent = b.consistent;
  triples = b.triples ∙ a.triples;
  names = b.names ∙ a.names;
  elements_stack = b.elements_stack ∙ a.elements_stack;
  triples_stack = b.triples_stack ∙ a.triples_stack;
  counter = b.counter ∙ a.counter;
}

pub some-eq : {A : Type 0} (a b : A) → some a ≡ some b → a ≡ b
some-eq a b e = cc

module _ (k : ElementHandle) (e x : ParsedElement) (p : Parser) (found : find_element k p ≡ some x)
    (i : e.idtf ≡ x.idtf) (t : e.is_element_type ≡ x.is_element_type) where
  write-Grows : Grows p (write_element k e p)
  write-Grows h y f = elim (Bool-cases (same_place h k)) [
    | inl same ↦
        let y_is_x : y ≡ x = some-eq y x (sym f ∙ same_place-find h k p same ∙ found) in
        (
          e,
          find_element-write k e p h y f ∙ rw same,
          i ∙ ap (λ z. z.idtf) (sym y_is_x),
          t ∙ ap (λ z. z.is_element_type) (sym y_is_x),
        )
    | inr other ↦ (y, find_element-write k e p h y f ∙ rw other, refl, refl)
  ]

  write_fields :
      let q = write_element k e p in
      (q.parsed_triples ≡ p.parsed_triples)
      × (q.idtf_to_parsed_element ≡ p.idtf_to_parsed_element)
      × (q.contour_elements_stack ≡ p.contour_elements_stack)
      × (q.contour_triples_stack ≡ p.contour_triples_stack)
      × (q.idtf_counter ≡ p.idtf_counter)
      × (q.element_type_not_outgoing_base_arcs ≡ p.element_type_not_outgoing_base_arcs)
  unfolding write_element set_container
  write_fields = ground arith

  pub write-Changes : IsConsistent p → Changes p (write_element k e p)
  write-Changes c =
      let (ts, m, s, s', n, o) = write_fields in
      record {
        grows = write-Grows;
        consistent = Grows-IsConsistent p (write_element k e p) write-Grows m ts o c;
        triples = ts;
        names = m;
        elements_stack = s;
        triples_stack = s';
        counter = n;
      }

-- Where the containers stay, so do all elements.
pub same_containers-Grows :
    (p q : Parser)
    → q.parsed_elements ≡ p.parsed_elements
    → q.parsed_elements_local ≡ p.parsed_elements_local
    → Grows p q
unfolding find_element get_container_by_element_visibility
same_containers-Grows p q e e' h x f = (x, ground arith, refl, refl)

pub insert_base_arc-Changes :
    (idtf : Str) (p : Parser) → IsConsistent p → Changes p (insert_base_arc idtf p)
unfolding insert_base_arc
insert_base_arc-Changes idtf p c =
    let g = same_containers-Grows p (insert_base_arc idtf p) refl refl in
    record {
      grows = g;
      consistent = Grows-IsConsistent p (insert_base_arc idtf p) g refl refl refl c;
      triples = refl;
      names = refl;
      elements_stack = refl;
      triples_stack = refl;
      counter = refl;
    }

abbrev with_other_arc : Str → ElementHandle → Parser → Parser
with_other_arc idtf h p = record p {
  element_type_not_outgoing_base_arcs = p.element_type_not_outgoing_base_arcs ++ (idtf, h) ∷ [];
}

stored-Changes :
    (idtf : Str) (h : ElementHandle) (p : Parser)
    → IsKnown p h
    → IsConsistent p
    → Changes p (with_other_arc idtf h p)
stored-Changes idtf h p k c =
    let q = with_other_arc idtf h p in
    let g = same_containers-Grows p q refl refl in
    record {
      grows = g;
      consistent = record {
        named = λ k' h' f. Grows-Names p q g k' h' (c.named k' h' f);
        triples = Grows-triples p q g p.parsed_triples c.triples;
        others =
            All-snoc (IsKnownEntry q) p.element_type_not_outgoing_base_arcs (idtf, h)
              (Grows-others p q g p.element_type_not_outgoing_base_arcs c.others)
              (Grows-IsKnown p q g h k);
      };
      triples = refl;
      names = refl;
      elements_stack = refl;
      triples_stack = refl;
      counter = refl;
    }

pub insert_other_arc-Changes :
    (idtf : Str) (e : ParsedElement) (h : ElementHandle) (p : Parser)
    → IsKnown p h
    → IsConsistent p
    → Changes p (insert_other_arc idtf e h p)
unfolding insert_other_arc
insert_other_arc-Changes idtf e h p k c = elim (Bool-cases e.is_element_type) [
  | inr plain ↦ rw plain (Changes-refl p c)
  | inl kind ↦ rw kind (stored-Changes idtf h p k c)
]
