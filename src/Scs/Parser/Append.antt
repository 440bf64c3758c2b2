-- ===== src/Scs/Parser/Append.antt =====
-- Elements as they are met: `AppendElement` and the operations that only call it.
pub mod Known
pub mod Connectors
pub mod Placed
use sc_memory_knowledge_sync.Base.{
  ◌^◌, ◌%◌, ◌+◌, length, List, false, bit_or, Bool, to_string, ◌++◌, ℕ, codes, str_eq, find_name,
  Str, none, some, [], ◌∷◌, if◌then◌else◌,
}
use sc_memory_knowledge_sync.Scs.TypeResolver
use sc_memory_knowledge_sync.Scs.Parser.State.{
  set_container, get_container_by_element_visibility, Parser,
}
use sc_memory_knowledge_sync.Scs.Parser.Element.{
  invalid_handle, ParsedElement, ElementHandle, parsed_element,
}
use sc_memory_knowledge_sync.ScType.Elements.{
  var, const, var_node, const_node_structure, const_node,
}

-- A generated identifier: a prefix and the counter, a 32-bit word.
abbrev pub generate_idtf : Str → Parser → Str × Parser
generate_idtf prefix p =
    (prefix ++ to_string p.idtf_counter, record p { idtf_counter = (p.idtf_counter + 1) % 2 ^ 32 })

unfoldable pub generate_node_idtf : Parser → Str × Parser
generate_node_idtf p = generate_idtf (codes "..node_") p

unfoldable pub generate_connector_idtf : Parser → Str × Parser
generate_connector_idtf p = generate_idtf (codes "..connector_") p

unfoldable pub generate_link_idtf : Parser → Str × Parser
generate_link_idtf p = generate_idtf (codes "..link_") p

unfoldable pub generate_contour_idtf : Parser → Str × Parser
generate_contour_idtf p = generate_idtf (codes "..contour_") p

-- The end of `AppendElement`, for an identifier that no element has yet.
unfoldable pub append_new_element : ParsedElement → Parser → ElementHandle × Parser
unfolding get_container_by_element_visibility set_container
append_new_element e p =
    let container = get_container_by_element_visibility e.visibility p in
    let handle : ElementHandle = record {
      id = length container % 2 ^ 32;
      visibility = e.visibility;
      is_element_type = e.is_element_type;
    } in
    let p' = set_container e.visibility (container ++ e ∷ []) p in
    (handle, record p' { idtf_to_parsed_element = (e.idtf, handle) ∷ p'.idtf_to_parsed_element })

unfoldable pub append_named_element : Str → ℕ → Bool → Str → Bool → Parser → ElementHandle × Parser
unfolding append_new_element parsed_element find_name str_eq
append_named_element idtf type is_reversed value is_url p =
    elim (find_name idtf p.idtf_to_parsed_element) [
      | some handle ↦ (handle, p)
      | none ↦ append_new_element (parsed_element idtf type is_reversed value is_url) p
    ]

unfoldable pub append_element : Str → ℕ → Bool → Str → Bool → Parser → ElementHandle × Parser
unfolding append_named_element generate_node_idtf
append_element idtf type is_reversed value is_url p =
    let (idtf', p') = generate_node_idtf p in
    if TypeResolver.is_unnamed idtf
    then append_named_element idtf' type is_reversed value is_url p'
    else append_named_element idtf type is_reversed value is_url p

unfoldable pub resolve_alias : Str → Parser → ElementHandle
unfolding find_name str_eq
resolve_alias name p = elim (find_name name p.alias_handles) [
  | none ↦ invalid_handle
  | some handle ↦ handle
]

unfoldable pub process_identifier : Str → Parser → ElementHandle × Parser
unfolding append_element
process_identifier name p =
    append_element name (if TypeResolver.is_const name then const_node else var_node) false [] false
      p

unfoldable pub process_identifier_level1 : Str → Str → Parser → ElementHandle × Parser
unfolding append_element
process_identifier_level1 scs_type name p =
    let type = TypeResolver.get_element_type scs_type in
    let type' = bit_or type (if TypeResolver.is_const name then const else var) in
    append_element name type' false [] false p

unfoldable pub process_connector : Str → Parser → ElementHandle × Parser
unfolding append_element generate_connector_idtf
process_connector connector p =
    let (idtf, p') = generate_connector_idtf p in
    append_element idtf (TypeResolver.get_connector_type connector)
      (TypeResolver.is_connector_reversed connector) [] false p'

unfoldable pub process_empty_contour : Parser → ElementHandle × Parser
unfolding append_element generate_contour_idtf
process_empty_contour p =
    let (idtf, p') = generate_contour_idtf p in
    append_element idtf const_node_structure false [] false p'

-- `m_aliasHandles[alias] = value`.
unfoldable pub assign :
    Str → ElementHandle → List (Str × ElementHandle) → List (Str × ElementHandle)
unfolding str_eq
assign k v [] = (k, v) ∷ []
assign k v ((j, w) ∷ m) = if str_eq j k then (k, v) ∷ m else (j, w) ∷ assign k v m

unfoldable pub process_assign : Str → ElementHandle → Parser → Parser
unfolding assign
process_assign alias value p = record p { alias_handles = assign alias value p.alias_handles }
