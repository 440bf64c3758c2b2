-- ===== src/Scs/Parser/Append/Placed.antt =====
-- Where `AppendElement` puts elements.
use sc_memory_knowledge_sync.Scs.TypeResolver
use sc_memory_knowledge_sync.Scs.Parser.Append.{
  generate_node_idtf, append_named_element, append_element, append_new_element,
}
use sc_memory_knowledge_sync.Scs.Parser.State.{
  Parser, set_container, get_container_by_element_visibility,
}
use sc_memory_knowledge_sync.Scs.Parser.Element.{
  system, global, local, parsed_element, Visibility, ParsedElement,
}
use sc_memory_knowledge_sync.Base.{
  refl, inr, inl, find_name, Bool-cases, Option-cases, ◌≡◌, arith, Bool, ℕ, Str,
}
use sc_memory_knowledge_sync.Scs.Parser.Contour.Members.{IsInGlobal, IsInLocal, IsPlaced}
use sc_memory_knowledge_sync.Scs.Parser.Invariant.{All-snoc}
use sc_memory_knowledge_sync.Scs.Parser.Append.Known.{append_known, append_unknown}

append_new-IsPlaced :
    (e : ParsedElement) (p : Parser) → IsPlaced p → IsPlaced (append_new_element e p).1
unfolding append_new_element get_container_by_element_visibility set_container
append_new-IsPlaced e p placed = go e.visibility refl
  where
    go : (v : Visibility) → e.visibility ≡ v → IsPlaced (append_new_element e p).1
    go local k = simp k (record {
      elements = placed.elements;
      locals = All-snoc IsInLocal p.parsed_elements_local e placed.locals k;
    })
    go global k = simp k (record {
      elements = All-snoc IsInGlobal p.parsed_elements e placed.elements (ground arith);
      locals = placed.locals;
    })
    go system k = simp k (record {
      elements = All-snoc IsInGlobal p.parsed_elements e placed.elements (ground arith);
      locals = placed.locals;
    })

append_named-IsPlaced :
    (idtf : Str) (type : ℕ) (is_reversed : Bool) (value : Str) (is_url : Bool) (p : Parser)
    → IsPlaced p
    → IsPlaced (append_named_element idtf type is_reversed value is_url p).1
append_named-IsPlaced idtf type is_reversed value is_url p placed =
    elim (Option-cases (find_name idtf p.idtf_to_parsed_element)) [
      | inl e ↦
          rw (append_unknown idtf type is_reversed value is_url p e)
            (append_new-IsPlaced (parsed_element idtf type is_reversed value is_url) p placed)
      | inr (h, e) ↦ rw (append_known idtf type is_reversed value is_url p h e) placed
    ]

-- Every element that is appended stands in the container of its visibility, if all others do.
pub append_element-IsPlaced :
    (idtf : Str) (type : ℕ) (is_reversed : Bool) (value : Str) (is_url : Bool) (p : Parser)
    → IsPlaced p
    → IsPlaced (append_element idtf type is_reversed value is_url p).1
unfolding append_element generate_node_idtf
append_element-IsPlaced idtf type is_reversed value is_url p placed =
    elim (Bool-cases (TypeResolver.is_unnamed idtf)) [
      | inl e ↦ rw e (
          append_named-IsPlaced (generate_node_idtf p).0 type is_reversed value is_url
            (generate_node_idtf p).1
            (record { elements = placed.elements; locals = placed.locals }))
      | inr e ↦ rw e (append_named-IsPlaced idtf type is_reversed value is_url p placed)
    ]
