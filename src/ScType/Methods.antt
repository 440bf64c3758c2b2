-- ===== src/ScType/Methods.antt =====
-- The methods of `ScType`, sc-memory/sc-memory/src/sc_type.cpp. A `ScType` is its word `m_realType`;
-- the methods that ask `scs::TypeResolver` stand with it.
pub mod Keeps
use sc_memory_knowledge_sync.Base.{
  ℕ, Bool, ◌||◌, List, [], ◌∷◌, Str, none, some, find_type, bit_and, bit_or, ◌==◌, if◌then◌else◌,
}
use sc_memory_knowledge_sync.ScType.Flags.{
  sc_type_const, sc_type_var, sc_type_constancy_mask, sc_type_has_subtype,
  sc_type_has_subtype_in_mask, sc_type_is_node, sc_type_is_node_link, sc_type_is_connector,
  sc_type_is_common_edge, sc_type_is_arc, sc_type_is_common_arc, sc_type_is_membership_arc,
}
use sc_memory_knowledge_sync.ScType.Extend.{complement, is_type_extendable_to}
use sc_memory_knowledge_sync.ScType.Names.{types_to_names}

unfoldable pub is_connector : ℕ → Bool
unfolding sc_type_is_connector
is_connector t = sc_type_is_connector t

unfoldable pub is_common_edge : ℕ → Bool
unfolding sc_type_is_common_edge
is_common_edge t = sc_type_is_common_edge t

unfoldable pub is_arc : ℕ → Bool
unfolding sc_type_is_arc
is_arc t = sc_type_is_arc t

unfoldable pub is_common_arc : ℕ → Bool
unfolding sc_type_is_common_arc
is_common_arc t = sc_type_is_common_arc t

unfoldable pub is_membership_arc : ℕ → Bool
unfolding sc_type_is_membership_arc
is_membership_arc t = sc_type_is_membership_arc t

unfoldable pub is_node : ℕ → Bool
unfolding sc_type_is_node
is_node t = sc_type_is_node t

unfoldable pub is_link : ℕ → Bool
unfolding sc_type_is_node_link
is_link t = sc_type_is_node_link t

unfoldable pub is_const : ℕ → Bool
unfolding sc_type_has_subtype
is_const t = sc_type_has_subtype t sc_type_const

unfoldable pub is_var : ℕ → Bool
unfolding sc_type_has_subtype
is_var t = sc_type_has_subtype t sc_type_var

unfoldable pub is_unknown : ℕ → Bool
is_unknown t = t == 0

unfoldable pub has_constancy_flag : ℕ → Bool
unfolding sc_type_has_subtype_in_mask
has_constancy_flag t = sc_type_has_subtype_in_mask t sc_type_constancy_mask

unfoldable pub as_const : ℕ → ℕ
as_const t = bit_or (bit_and t (complement sc_type_var)) sc_type_const

unfoldable pub up_const_type : ℕ → ℕ
unfolding as_const
up_const_type t = as_const t

-- The name of a declared type, and the empty text for any other.
unfoldable pub name : ℕ → Str
unfolding find_type
name t = elim (find_type t types_to_names) [ none ↦ [] | some n ↦ n ]

unfoldable pub can_extend_to : ℕ → ℕ → Bool
unfolding is_type_extendable_to
can_extend_to t ext_type = is_type_extendable_to t ext_type

-- The loop of `GetConnectorTypes` over the names.
collect_connector_types : List (ℕ × Str) → List ℕ
unfolding is_common_edge is_common_arc is_membership_arc
collect_connector_types [] = []
collect_connector_types ((t, _) ∷ rest) =
    let others = collect_connector_types rest in
    if is_common_edge t || (is_common_arc t || is_membership_arc t) then t ∷ others else others

-- The set of the declared types of sc-connectors that are neither bare connectors nor bare arcs, in
-- no particular order.
unfoldable pub get_connector_types : List ℕ
unfolding collect_connector_types
get_connector_types = collect_connector_types types_to_names
