-- ===== src/Scs/Parser/Append/Connectors.antt =====
-- `ProcessConnector` on a consistent parser.
use sc_memory_knowledge_sync.Scs.TypeResolver
use sc_memory_knowledge_sync.Base.{
  none, some, find_name, subst, [], ◌^◌, ◌%◌, ◌+◌, refl, to_string, false, arith, ◌≡◌, ◌∙◌, ◌++◌,
  sym, ℕ, codes, Str,
}
use sc_memory_knowledge_sync.Scs.Parser.Element.{parsed_element, ElementHandle, ParsedElement}
use sc_memory_knowledge_sync.Scs.Parser.State.{
  get_container_by_element_visibility, Parser, find_element,
}
use sc_memory_knowledge_sync.Scs.Parser.Append.{
  append_new_element, generate_connector_idtf, process_connector,
}
use sc_memory_knowledge_sync.Scs.Parser.Invariant.{Grows-IsConsistent, IsConsistent, Grows}
use sc_memory_knowledge_sync.Scs.Parser.Store.{
  find_element-append, find_element-append_self, find_element-before, HasRoom,
}
use sc_memory_knowledge_sync.Scs.Parser.Append.Known.{
  append_named, append_new-Appends, append_new-idtf_counter, append_unknown,
}

connector_idtf_named : (s : Str) → TypeResolver.is_unnamed (codes "..connector_" ++ s) ≡ false
unfolding TypeResolver.is_unnamed
connector_idtf_named s = refl

counted-Grows : (p : Parser) (n : ℕ) → Grows p (record p { idtf_counter = n })
unfolding find_element get_container_by_element_visibility
counted-Grows p n h e f = (e, ground arith, refl, refl)

-- The parser with the next counter has the same elements.
counted-IsConsistent :
    (p : Parser) (n : ℕ) → IsConsistent p → IsConsistent (record p { idtf_counter = n })
counted-IsConsistent p n c =
    Grows-IsConsistent p (record p { idtf_counter = n }) (counted-Grows p n) refl refl refl c

abbrev connector_idtf : Parser → Str
connector_idtf p = codes "..connector_" ++ to_string p.idtf_counter

-- The element of a sc-connector: it is named by the counter, and its type and its direction are those
-- of the text.
abbrev pub connector_element : Str → Parser → ParsedElement
connector_element connector p =
    parsed_element (codes "..connector_" ++ to_string p.idtf_counter)
      (TypeResolver.get_connector_type connector) (TypeResolver.is_connector_reversed connector) []
      false

abbrev counted : Parser → Parser
counted p = record p { idtf_counter = (p.idtf_counter + 1) % 2 ^ 32 }

process_connector-append :
    (connector : Str) (p : Parser)
    → find_name (codes "..connector_" ++ to_string p.idtf_counter) p.idtf_to_parsed_element ≡ none
    → process_connector connector p ≡ append_new_element (connector_element connector p) (counted p)
unfolding process_connector generate_connector_idtf
process_connector-append connector p fresh =
    append_named (connector_idtf p) (TypeResolver.get_connector_type connector)
      (TypeResolver.is_connector_reversed connector) [] false (counted p)
      (connector_idtf_named (to_string p.idtf_counter))
    ∙ append_unknown (connector_idtf p) (TypeResolver.get_connector_type connector)
        (TypeResolver.is_connector_reversed connector) [] false (counted p) fresh

counted-find_element :
    (p : Parser) (h : ElementHandle) → find_element h (counted p) ≡ find_element h p
unfolding find_element get_container_by_element_visibility
counted-find_element p h = ground arith

-- What the text of a sc-connector adds to a parser: a new element under a handle that named none.
abbrev pub AddsConnector : Str → Parser → ElementHandle × Parser → Type 0
AddsConnector connector p (h, q) =
    (find_element h p ≡ none)
    × (find_element h q ≡ some (connector_element connector p))
    × ((k : ElementHandle) (x : ParsedElement)
        → find_element k p ≡ some x
        → find_element k q ≡ some x)
    × (q.idtf_counter ≡ (p.idtf_counter + 1) % 2 ^ 32)
    × IsConsistent q
    × (q.parsed_triples ≡ p.parsed_triples)
    × (q.contour_elements_stack ≡ p.contour_elements_stack)
    × (q.contour_triples_stack ≡ p.contour_triples_stack)

-- On a consistent parser with room for one more element, in which no element has the name that the
-- counter gives yet, a sc-connector gets a handle that named no element before; it names an element
-- with that name, with the type and the direction of the text. All other elements stay as they
-- are under their handles, the counter goes on by one, as a 32-bit word, the parser stays
-- consistent, and its triples and the marks of its contours stay.
pub process_connector-AddsConnector :
    (connector : Str) (p : Parser)
    → HasRoom p
    → IsConsistent p
    → find_name (codes "..connector_" ++ to_string p.idtf_counter) p.idtf_to_parsed_element ≡ none
    → AddsConnector connector p (process_connector connector p)
process_connector-AddsConnector connector p room c fresh =
    let e = connector_element connector p in
    let a =
      append_new-Appends e (counted p) room (counted-IsConsistent p (counted p).idtf_counter c) in
    let r = append_new_element e (counted p) in
    let adds : AddsConnector connector p r = (
      sym (counted-find_element p r.0) ∙ find_element-before e (counted p) room,
      find_element-append_self e (counted p) room,
      λ k x f. find_element-append e (counted p) k x (counted-find_element p k ∙ f),
      append_new-idtf_counter e (counted p),
      a.consistent,
      a.triples,
      a.elements_stack,
      a.triples_stack,
    ) in
    subst (AddsConnector connector p) (sym (process_connector-append connector p fresh)) adds
