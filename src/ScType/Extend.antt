-- ===== src/ScType/Extend.antt =====
-- When the type of a sc-element may be changed to another: `sc_storage_is_type_extendable_to` of
-- sc-memory/sc-core/src/sc-store/sc_storage.c, which `ScType::CanExtendTo` calls.
pub mod Branches
pub mod Order
use sc_memory_knowledge_sync.Base.{
  ℕ, ◌-◌, Bool, true, false, not, ◌&&◌, bit_and, ◌==◌, if◌then◌else◌,
}
use sc_memory_knowledge_sync.ScType.Flags.{
  sc_type_node, sc_type_node_link, sc_type_fuz_arc, sc_type_element_mask, sc_type_connector_mask,
  sc_type_constancy_mask, sc_type_actuality_mask, sc_type_permanency_mask, sc_type_positivity_mask,
  sc_type_node_mask, sc_type_node_link_mask, sc_type_is_node, sc_type_is_node_link,
  sc_type_is_connector, sc_type_is_common_edge, sc_type_is_arc, sc_type_is_common_arc,
  sc_type_is_membership_arc,
}

-- `~mask`, kept to the 16 bits of a `sc_type`.
abbrev pub complement : ℕ → ℕ
complement mask = 0xffff - mask

unfoldable pub have_not_compatible_mask : ℕ → ℕ → ℕ → Bool
have_not_compatible_mask type new_type mask =
    let subtype = bit_and type mask in
    let new_subtype = bit_and new_type mask in not (subtype == 0) && not (subtype == new_subtype)

-- The branch for a sc-link.
unfoldable pub is_node_link_extendable_to : ℕ → ℕ → Bool
is_node_link_extendable_to type new_type =
    if not (sc_type_is_node_link new_type)
    then false
    else let type' = bit_and type (complement sc_type_node_link) in
      let new_type' = bit_and new_type (complement sc_type_node_link) in
      not (have_not_compatible_mask type' new_type' sc_type_node_link_mask)

-- The branch for another sc-node.
unfoldable pub is_node_extendable_to : ℕ → ℕ → Bool
is_node_extendable_to type new_type =
    if not (sc_type_is_node new_type)
    then false
    else let type' = bit_and type (complement sc_type_node) in
      let new_type' = bit_and new_type (complement sc_type_node) in
      not (have_not_compatible_mask type' new_type' sc_type_node_mask)

-- What is asked where the kinds of the two sc-connectors differ.
unfoldable pub is_connector_kind_extendable_to : ℕ → ℕ → Bool
is_connector_kind_extendable_to type new_type =
    if sc_type_is_common_edge type
    then sc_type_is_common_edge new_type
    else if sc_type_is_arc type
    then if not (sc_type_is_arc new_type)
      then false
      else if sc_type_is_common_arc type
      then sc_type_is_common_arc new_type
      else if sc_type_is_membership_arc type
      then sc_type_is_membership_arc new_type
      else true
    else true

-- The branch for a sc-connector.
unfoldable pub is_connector_extendable_to : ℕ → ℕ → Bool
is_connector_extendable_to type new_type =
    if not (sc_type_is_connector new_type)
    then false
    else if have_not_compatible_mask type new_type sc_type_connector_mask
        && not (is_connector_kind_extendable_to type new_type)
    then false
    else let type' = bit_and type (complement sc_type_connector_mask) in
      let new_type' = bit_and new_type (complement sc_type_connector_mask) in
      if have_not_compatible_mask type' new_type' sc_type_actuality_mask
      then false
      else if have_not_compatible_mask type' new_type' sc_type_permanency_mask
      then false
      else if have_not_compatible_mask type' new_type' sc_type_positivity_mask
      then false
      else if have_not_compatible_mask type' new_type' sc_type_fuz_arc
      then false
      else true

unfoldable pub is_type_extendable_to : ℕ → ℕ → Bool
is_type_extendable_to type new_type =
    if have_not_compatible_mask type new_type sc_type_element_mask
    then false
    else if have_not_compatible_mask type new_type sc_type_constancy_mask
    then false
    else if sc_type_is_node_link type
    then is_node_link_extendable_to type new_type
    else if sc_type_is_node type
    then is_node_extendable_to type new_type
    else if sc_type_is_connector type
    then is_connector_extendable_to type new_type
    else true
