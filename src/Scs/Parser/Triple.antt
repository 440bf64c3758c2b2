-- ===== src/Scs/Parser/Triple.antt =====
-- `ProcessTriple`: a triple of sc-elements, and what a type of sc-elements does to its members.
pub mod Changes
pub mod Members
pub mod Stored
use sc_memory_knowledge_sync.Scs.Parser.State.{modify, ◌>>=◌, ◌>>◌, Parser, Action}
use sc_memory_knowledge_sync.Base.{
  ◌||◌, ◌==◌, not, ◌&&◌, bit_and, ◌++◌, contains, Bool, bit_or, Str, ℕ, [], ◌∷◌, if◌then◌else◌,
}
use sc_memory_knowledge_sync.ScType.Methods as ScType
use sc_memory_knowledge_sync.Scs.TypeResolver
use sc_memory_knowledge_sync.Scs.Parser.Element.{get_type, ElementHandle, ParsedElement}
use sc_memory_knowledge_sync.Scs.Parser.State.{
  cannot_extend_type, base_arc_in_triple, cannot_extend_element_type, returns, throws, Action,
  Error, Parser, get_parsed_element_ref, get_parsed_element, is_element_type_outgoing_base_arc,
  write_element,
}
use sc_memory_knowledge_sync.ScType.Elements.{const_node_class, var, const}
use sc_memory_knowledge_sync.ScType.Extend.{complement}
use sc_memory_knowledge_sync.ScType.Arcs.{const_perm_pos_arc}

-- `ScType::Const | ScType::Var`.
abbrev pub constancy : ℕ
constancy = bit_or const var

-- Whether a type may take the type that a keynode stands for: it can be extended to it but for its
-- constancy, and of the two constancies one can be extended to the other.
unfoldable pub takes_type : ℕ → ℕ → Bool
takes_type target provided =
    let without_constancy = bit_and target (complement constancy) in
    let provided_constancy = bit_and provided constancy in
    let target_constancy = bit_and target constancy in
    ScType.can_extend_to without_constancy provided
    && (ScType.can_extend_to provided_constancy target_constancy
        || ScType.can_extend_to target_constancy provided_constancy)

-- What becomes of the type of a member of a type of sc-elements: the new type, or a parse error.
pub data Retype : Type 0 where
  new_type : ℕ → Retype
  refused : Error → Retype

unfoldable pub retype : ParsedElement → ℕ → Retype
unfolding takes_type
retype target provided =
    let extended = bit_or target.type provided in
    if target.is_element_type && not (ScType.can_extend_to extended const_node_class)
    then refused cannot_extend_element_type
    else if takes_type target.type provided
    then new_type extended
    else if not (ScType.can_extend_to provided target.type)
    then refused cannot_extend_type
    else new_type target.type

-- `m_elementTypeOutgoingBaseArcs.insert`.
unfoldable pub insert_base_arc : Str → Parser → Parser
insert_base_arc idtf p = record p {
  element_type_outgoing_base_arcs =
      if contains idtf p.element_type_outgoing_base_arcs
      then p.element_type_outgoing_base_arcs
      else idtf ∷ p.element_type_outgoing_base_arcs;
}

-- `m_elementTypeNotOutgoingBaseArcsToElementTypes.insert`, if the element is a type of sc-elements.
unfoldable pub insert_other_arc : Str → ParsedElement → ElementHandle → Parser → Parser
insert_other_arc idtf e handle p =
    if e.is_element_type
    then record p {
      element_type_not_outgoing_base_arcs =
          p.element_type_not_outgoing_base_arcs ++ (idtf, handle) ∷ [];
    }
    else p

unfoldable pub push_triple : ElementHandle → ElementHandle → ElementHandle → Parser → Parser
push_triple source connector target p = record p {
  parsed_triples =
      p.parsed_triples ++ record { source = source; connector = connector; target = target } ∷ [];
}

-- A base sc-arc from a type of sc-elements: its target takes the type.
unfoldable pub add_member :
    ParsedElement → ParsedElement → ParsedElement → ElementHandle → Action (Unit {0})
unfolding retype insert_base_arc insert_other_arc write_element
add_member source connector target target_hdl p =
    elim (retype target (TypeResolver.get_element_type source.idtf)) [
      | refused e ↦ throws e p
      | new_type type ↦ returns tt (
          insert_other_arc connector.idtf target target_hdl (
            insert_base_arc connector.idtf
              (write_element target_hdl (record target { type = type }) p)))
    ]

-- The body of `AddConnector` before the triple is stored.
unfoldable pub check_triple :
    ParsedElement
    → ParsedElement
    → ParsedElement
    → ElementHandle
    → ElementHandle
    → Action (Unit {0})
unfolding add_member is_element_type_outgoing_base_arc insert_other_arc get_type
check_triple source connector target source_hdl target_hdl p =
    if source.is_element_type && get_type connector == const_perm_pos_arc
    then add_member source connector target target_hdl p
    else if source.is_element_type || target.is_element_type
    then returns tt (
        insert_other_arc connector.idtf target target_hdl
          (insert_other_arc connector.idtf source source_hdl p))
    else if is_element_type_outgoing_base_arc source p || is_element_type_outgoing_base_arc target p
    then throws base_arc_in_triple p
    else returns tt p

-- `AddConnector`.
unfoldable pub add_connector :
    ParsedElement → ElementHandle → ElementHandle → ElementHandle → Action (Unit {0})
unfolding get_parsed_element get_parsed_element_ref check_triple push_triple
add_connector connector source_hdl connector_hdl target_hdl = do
  source ← get_parsed_element source_hdl
  target ← get_parsed_element_ref target_hdl
  check_triple source connector target source_hdl target_hdl
  modify (push_triple source_hdl connector_hdl target_hdl)

unfoldable pub process_triple : ElementHandle → ElementHandle → ElementHandle → Action (Unit {0})
unfolding get_parsed_element_ref add_connector
process_triple source_hdl connector_hdl target_hdl = do
  connector ← get_parsed_element_ref connector_hdl
  if connector.is_reversed
      then add_connector connector target_hdl connector_hdl source_hdl
      else add_connector connector source_hdl connector_hdl target_hdl
