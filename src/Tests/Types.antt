-- ===== src/Tests/Types.antt =====
-- The types of sc-elements and their designations.
use sc_memory_knowledge_sync.Base.{
  bit_and, [], ◌≢◌, arith, ◌↔◌, codes, refl, ◌≡◌, true, false, not, ◌||◌,
}
use sc_memory_knowledge_sync.Scs.TypeResolver
use sc_memory_knowledge_sync.ScType.Extend.{
  have_not_compatible_mask, is_node_extendable_to, is_type_extendable_to,
}
use sc_memory_knowledge_sync.ScType.Arcs.{const_perm_pos_arc}
use sc_memory_knowledge_sync.ScType.Elements.{
  node, unknown, var_node, const_node, const_node_class, node_class, const_perm_arc,
}
use sc_memory_knowledge_sync.Scs.TypeResolver.RoundTrip.{
  is_element_type_iff, get_connector_type-get_reverse_scs_connector, is_unmarked,
  get_element_type-get_scs_element_keynode, get_connector_type-get_direct_scs_connector,
}
use sc_memory_knowledge_sync.ScType.Methods.{
  is_connector, is_node, is_var, is_const, can_extend_to, is_common_edge,
}
use sc_memory_knowledge_sync.Scs.TypeResolver.Constancy.{is_const-dots}
use sc_memory_knowledge_sync.ScType.Extend.Order.{
  is_type_extendable_to_trans, is_type_extendable_to_refl,
}
use sc_memory_knowledge_sync.ScType.Flags.{
  sc_type_element_mask, sc_type_is_connector, sc_type_is_node, sc_type_is_node_link,
  sc_type_is_common_arc, sc_type_is_common_edge,
}
use sc_memory_knowledge_sync.ScType.Methods.Keeps.{can_extend_to_keeps}
use sc_memory_knowledge_sync.Scs.Parser.Triple.{retype, refused, constancy}
use sc_memory_knowledge_sync.Scs.Parser.State.{cannot_extend_type}
use sc_memory_knowledge_sync.Scs.Parser.Element.{parsed_element}
use sc_memory_knowledge_sync.Scs.Parser.Triple.Members.{retype-KeepsPart, KeepsPart}

is_type_extendable_to_refl_example : is_type_extendable_to const_node_class const_node_class ≡ true
is_type_extendable_to_refl_example = is_type_extendable_to_refl const_node_class

is_type_extendable_to_trans_example : is_type_extendable_to node const_node_class ≡ true
unfolding is_type_extendable_to is_node_extendable_to have_not_compatible_mask
    sc_type_is_common_edge sc_type_is_common_arc sc_type_is_node_link sc_type_is_node
is_type_extendable_to_trans_example =
    is_type_extendable_to_trans node const_node const_node_class
      (record { edge_or_arc = refl; common_or_membership = refl }) refl refl

not_extendable : is_type_extendable_to const_node var_node ≡ false
unfolding is_type_extendable_to have_not_compatible_mask
not_extendable = refl

get_connector_type-get_direct_scs_connector_example :
    (TypeResolver.get_connector_type (TypeResolver.get_direct_scs_connector const_perm_pos_arc)
      ≡ const_perm_pos_arc)
    × (TypeResolver.is_connector_reversed (TypeResolver.get_direct_scs_connector const_perm_pos_arc)
        ≡ false)
unfolding TypeResolver.get_direct_scs_connector
get_connector_type-get_direct_scs_connector_example =
    get_connector_type-get_direct_scs_connector const_perm_pos_arc (λ e. cc) (λ e. omega arith)

-- At one of the unmarked types.
get_connector_type-get_reverse_scs_connector_example :
    (TypeResolver.get_connector_type (TypeResolver.get_reverse_scs_connector const_perm_arc)
      ≡ const_perm_arc)
    × (TypeResolver.is_connector_reversed (TypeResolver.get_reverse_scs_connector const_perm_arc)
        ≡ not (is_common_edge const_perm_arc || is_unmarked const_perm_arc))
unfolding TypeResolver.get_reverse_scs_connector
get_connector_type-get_reverse_scs_connector_example =
    get_connector_type-get_reverse_scs_connector const_perm_arc (λ e. cc) (λ e. omega arith)

-- The designation `<?-` is not known as reversed.
reads_as_direct : TypeResolver.is_connector_reversed (codes "<?-") ≡ false
unfolding TypeResolver.is_connector_reversed
reads_as_direct = refl

get_element_type-get_scs_element_keynode_example :
    TypeResolver.get_element_type (TypeResolver.get_scs_element_keynode node_class) ≡ node_class
unfolding TypeResolver.get_scs_element_keynode
get_element_type-get_scs_element_keynode_example =
    get_element_type-get_scs_element_keynode node_class (λ e. cc)

is_element_type_iff_example :
    (TypeResolver.is_element_type (codes "sc_edge") ≡ true)
    ↔ (TypeResolver.get_element_type (codes "sc_edge") ≢ unknown)
is_element_type_iff_example = is_element_type_iff (codes "sc_edge")

is_const-dots_example : TypeResolver.is_const (codes ".._x") ≡ false
is_const-dots_example = is_const-dots 2 b'_' (codes "x") (omega arith)

can_extend_to_keeps_example :
    ((not (is_const const_node) || is_const const_node_class) ≡ true)
    × ((not (is_var const_node) || is_var const_node_class) ≡ true)
    × ((not (is_node const_node) || is_node const_node_class) ≡ true)
    × ((not (is_connector const_node) || is_connector const_node_class) ≡ true)
unfolding can_extend_to have_not_compatible_mask sc_type_is_node_link sc_type_is_node
    is_node_extendable_to
can_extend_to_keeps_example = can_extend_to_keeps const_node const_node_class refl

-- A node that is a member of the type of constant classes.
retype-KeepsPart_example :
    let member = parsed_element (codes "x") node false [] false in
    (bit_and const_node_class member.type ≡ member.type)
    × KeepsPart sc_type_element_mask member.type const_node_class
    × KeepsPart constancy member.type const_node_class
unfolding retype parsed_element TypeResolver.is_element_type can_extend_to have_not_compatible_mask
    sc_type_is_node_link sc_type_is_node is_node_extendable_to sc_type_is_connector
retype-KeepsPart_example =
    retype-KeepsPart (parsed_element (codes "x") node false [] false) const_node_class
      const_node_class refl

-- A constant member of a type of variable elements.
refuses_variable :
    retype (parsed_element (codes "x") const_node false [] false) var_node
    ≡ refused cannot_extend_type
unfolding retype parsed_element TypeResolver.is_element_type can_extend_to have_not_compatible_mask
    sc_type_is_node_link sc_type_is_node is_node_extendable_to sc_type_is_connector
refuses_variable = refl
