-- ===== src/Scs/Parser/Append/Known.antt =====
-- `AppendElement` keeps the parser consistent, and gives a handle of the element with the identifier.
use sc_memory_knowledge_sync.Base.{
  false, Option-cases, str_eq_refl, ◌∙◌, eq_of_str_eq, Bool, ℕ, ap, subst, inr, inl, str_eq, sym,
  Bool-cases, arith, ◌≡◌, find_name, Str, none, some, ◌∷◌, refl,
}
use sc_memory_knowledge_sync.Scs.TypeResolver
use sc_memory_knowledge_sync.Scs.Parser.State.{set_container, Parser}
use sc_memory_knowledge_sync.Scs.Parser.Element.{parsed_element, ElementHandle, ParsedElement}
use sc_memory_knowledge_sync.Scs.Parser.Append.{
  append_element, append_named_element, append_new_element,
}
use sc_memory_knowledge_sync.Scs.Parser.Invariant.{
  Grows-others, IsKnownEntry, Grows-triples, IsKnownTriple, All, Grows-Names, Grows-refl,
  IsConsistent, Names, Grows,
}
use sc_memory_knowledge_sync.Scs.Parser.Store.{
  find_element-append_self, find_element-append, HasRoom,
}

-- What an operation that appends an element comes to: the elements stay, nothing else that the
-- parser keeps of its triples and its contours changes, and the handle is that of the identifier.
pub record Appends (p : Parser) (idtf : Str) (h : ElementHandle) (q : Parser) : Type 0 where
  pub grows : Grows p q
  pub consistent : IsConsistent q
  pub names : Names q idtf h
  pub found : find_name idtf q.idtf_to_parsed_element ≡ some h
  pub triples : q.parsed_triples ≡ p.parsed_triples
  pub elements_stack : q.contour_elements_stack ≡ p.contour_elements_stack
  pub triples_stack : q.contour_triples_stack ≡ p.contour_triples_stack
  pub base_arcs : q.element_type_outgoing_base_arcs ≡ p.element_type_outgoing_base_arcs
  pub other_arcs : q.element_type_not_outgoing_base_arcs ≡ p.element_type_not_outgoing_base_arcs

pub new_idtf :
    (idtf : Str) (type : ℕ) (is_reversed : Bool) (value : Str) (is_url : Bool)
    → (parsed_element idtf type is_reversed value is_url).idtf ≡ idtf
unfolding parsed_element
new_idtf idtf type is_reversed value is_url = refl

module _ (e : ParsedElement) (p : Parser) where
  private_fields :
      let q = (append_new_element e p).1 in
      (q.parsed_triples ≡ p.parsed_triples)
      × (q.contour_elements_stack ≡ p.contour_elements_stack)
      × (q.contour_triples_stack ≡ p.contour_triples_stack)
      × (q.element_type_outgoing_base_arcs ≡ p.element_type_outgoing_base_arcs)
      × (q.element_type_not_outgoing_base_arcs ≡ p.element_type_not_outgoing_base_arcs)
      × (q.idtf_to_parsed_element ≡ (e.idtf, (append_new_element e p).0) ∷ p.idtf_to_parsed_element)
  unfolding append_new_element set_container
  private_fields = ground arith

  pub append_new-idtf_counter : (append_new_element e p).1.idtf_counter ≡ p.idtf_counter
  unfolding append_new_element set_container
  append_new-idtf_counter = ground arith

  append_new-Grows : Grows p (append_new_element e p).1
  append_new-Grows h x f = (x, find_element-append e p h x f, refl, refl)

  kind_of_handle : (append_new_element e p).0.is_element_type ≡ e.is_element_type
  unfolding append_new_element
  kind_of_handle = refl

  append_new-Names : HasRoom p → Names (append_new_element e p).1 e.idtf (append_new_element e p).0
  append_new-Names room = (e, find_element-append_self e p room, refl, sym kind_of_handle)

  append_new-named :
      HasRoom p
      → IsConsistent p
      → (k : Str) (h : ElementHandle)
      → find_name k ((e.idtf, (append_new_element e p).0) ∷ p.idtf_to_parsed_element) ≡ some h
      → Names (append_new_element e p).1 k h
  unfolding find_name
  append_new-named room c k h f = elim (Bool-cases (str_eq e.idtf k)) [
    | inl same ↦
        let q = (append_new_element e p).1 in
        let here : (append_new_element e p).0 ≡ h = ground arith in
        subst (Names q k) here (
          subst (λ k'. Names q k' (append_new_element e p).0) (eq_of_str_eq e.idtf k same)
            (append_new-Names room))
    | inr other ↦
        Grows-Names p (append_new_element e p).1 append_new-Grows k h (c.named k h (ground arith))
  ]

  append_new-IsConsistent : HasRoom p → IsConsistent p → IsConsistent (append_new_element e p).1
  append_new-IsConsistent room c =
      let q = (append_new_element e p).1 in
      let (t, _, _, _, o, m) = private_fields in
      record {
        named = λ k h f. append_new-named room c k h (ap (find_name k) (sym m) ∙ f);
        triples =
            subst (All (IsKnownTriple q)) (sym t)
              (Grows-triples p q append_new-Grows p.parsed_triples c.triples);
        others =
            subst (All (IsKnownEntry q)) (sym o)
              (Grows-others p q append_new-Grows p.element_type_not_outgoing_base_arcs c.others);
      }

  append_new-found :
      find_name e.idtf (append_new_element e p).1.idtf_to_parsed_element
      ≡ some (append_new_element e p).0
  unfolding find_name
  append_new-found =
      let (_, _, _, _, _, m) = private_fields in ap (find_name e.idtf) m ∙ rw (str_eq_refl e.idtf)

  pub append_new-Appends :
      HasRoom p
      → IsConsistent p
      → Appends p e.idtf (append_new_element e p).0 (append_new_element e p).1
  append_new-Appends room c =
      let (t, s, s', b, o, _) = private_fields in
      record {
        grows = append_new-Grows;
        consistent = append_new-IsConsistent room c;
        names = append_new-Names room;
        found = append_new-found;
        triples = t;
        elements_stack = s;
        triples_stack = s';
        base_arcs = b;
        other_arcs = o;
      }

-- An element that is there already.
known-Appends :
    (p : Parser) (idtf : Str) (h : ElementHandle)
    → IsConsistent p
    → find_name idtf p.idtf_to_parsed_element ≡ some h
    → Appends p idtf h p
known-Appends p idtf h c f = record {
  grows = Grows-refl p;
  consistent = c;
  names = c.named idtf h f;
  found = f;
  triples = refl;
  elements_stack = refl;
  triples_stack = refl;
  base_arcs = refl;
  other_arcs = refl;
}

-- The same of a result, the handle and the parser.
abbrev pub AppendsTo : Parser → Str → ElementHandle × Parser → Type 0
AppendsTo p idtf r = Appends p idtf r.0 r.1

module _ (idtf : Str) (type : ℕ) (is_reversed : Bool) (value : Str) (is_url : Bool)
    (p : Parser) where
  pub append_known :
      (h : ElementHandle)
      → find_name idtf p.idtf_to_parsed_element ≡ some h
      → append_named_element idtf type is_reversed value is_url p ≡ (h, p)
  unfolding append_named_element
  append_known h e = rw (e, append_named_element)

  pub append_unknown :
      find_name idtf p.idtf_to_parsed_element ≡ none
      → append_named_element idtf type is_reversed value is_url p
        ≡ append_new_element (parsed_element idtf type is_reversed value is_url) p
  unfolding append_named_element
  append_unknown e = rw (e, append_named_element)

  pub append_named :
      TypeResolver.is_unnamed idtf ≡ false
      → append_element idtf type is_reversed value is_url p
        ≡ append_named_element idtf type is_reversed value is_url p
  unfolding append_element
  append_named e = rw e

  pub append_named-Appends :
      HasRoom p
      → IsConsistent p
      → AppendsTo p idtf (append_named_element idtf type is_reversed value is_url p)
  append_named-Appends room c = elim (Option-cases (find_name idtf p.idtf_to_parsed_element)) [
    | inl e ↦ rw (append_unknown e) (
        subst
          (λ k.
            AppendsTo p k
              (append_new_element (parsed_element idtf type is_reversed value is_url) p))
          (new_idtf idtf type is_reversed value is_url)
          (append_new-Appends (parsed_element idtf type is_reversed value is_url) p room c))
    | inr (h, e) ↦ rw (append_known h e) (known-Appends p idtf h c e)
  ]

  pub append_element-Appends :
      HasRoom p
      → IsConsistent p
      → TypeResolver.is_unnamed idtf ≡ false
      → AppendsTo p idtf (append_element idtf type is_reversed value is_url p)
  append_element-Appends room c e = rw (append_named e) (append_named-Appends room c)

-- An identifier that is not one of the two of unnamed elements stands for one element: appended to a
-- consistent parser with room, it gets the handle of an element with this identifier, all elements
-- keep their handles and identifiers, the parser stays consistent, and to append it once more, with
-- whatever type and content, gives the same handle and changes nothing.
pub append_element-again :
    (idtf : Str) (type type' : ℕ) (is_reversed is_reversed' : Bool) (value value' : Str)
    (is_url is_url' : Bool) (p : Parser)
    → HasRoom p
    → IsConsistent p
    → TypeResolver.is_unnamed idtf ≡ false
    → let (h, q) = append_element idtf type is_reversed value is_url p in
      Grows p q
      × IsConsistent q
      × Names q idtf h
      × (append_element idtf type' is_reversed' value' is_url' q ≡ (h, q))
append_element-again idtf type type' is_reversed is_reversed' value value' is_url is_url' p room c
      e =
    let r = append_element idtf type is_reversed value is_url p in
    let a = append_element-Appends idtf type is_reversed value is_url p room c e in
    (
      a.grows,
      a.consistent,
      a.names,
      append_named idtf type' is_reversed' value' is_url' r.1 e
          ∙ append_known idtf type' is_reversed' value' is_url' r.1 r.0 a.found,
    )
