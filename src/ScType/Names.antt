-- ===== src/ScType/Names.antt =====
-- The names of the declared types, `ScType::m_typesToNames` of sc-memory/sc-memory/src/sc_type.cpp.
use sc_memory_knowledge_sync.Base.{ℕ, List, [], ◌∷◌, Str, codes}
use sc_memory_knowledge_sync.ScType.Elements.{
  unknown, node, connector, common_edge, arc, common_arc, membership_arc, const, var, const_node,
  var_node, const_connector, var_connector, const_common_edge, var_common_edge, const_arc, var_arc,
  const_common_arc, var_common_arc, const_membership_arc, var_membership_arc, perm_arc, temp_arc,
  const_perm_arc, var_perm_arc, const_temp_arc, var_temp_arc, actual_temp_arc, inactual_temp_arc,
  const_actual_temp_arc, var_actual_temp_arc, const_inactual_temp_arc, var_inactual_temp_arc,
  node_link, node_link_class, node_tuple, node_structure, node_role, node_non_role, node_class,
  node_superclass, node_material, const_node_link, const_node_link_class, const_node_tuple,
  const_node_structure, const_node_role, const_node_non_role, const_node_class,
  const_node_superclass, const_node_material, var_node_link, var_node_link_class, var_node_tuple,
  var_node_structure, var_node_role, var_node_non_role, var_node_class, var_node_superclass,
  var_node_material,
}
use sc_memory_knowledge_sync.ScType.Arcs.{
  pos_arc, neg_arc, fuz_arc, const_pos_arc, var_pos_arc, perm_pos_arc, temp_pos_arc,
  actual_temp_pos_arc, inactual_temp_pos_arc, const_perm_pos_arc, const_temp_pos_arc,
  const_actual_temp_pos_arc, const_inactual_temp_pos_arc, var_perm_pos_arc, var_temp_pos_arc,
  var_actual_temp_pos_arc, var_inactual_temp_pos_arc, const_neg_arc, var_neg_arc, perm_neg_arc,
  temp_neg_arc, actual_temp_neg_arc, inactual_temp_neg_arc, const_perm_neg_arc, const_temp_neg_arc,
  const_actual_temp_neg_arc, const_inactual_temp_neg_arc, var_perm_neg_arc, var_temp_neg_arc,
  var_actual_temp_neg_arc, var_inactual_temp_neg_arc, const_fuz_arc, var_fuz_arc,
}

abbrev pub types_to_names : List (ℕ × Str)
types_to_names =
    (unknown, codes "Unknown")
    ∷ (node, codes "Node")
    ∷ (connector, codes "Connector")
    ∷ (common_edge, codes "CommonEdge")
    ∷ (arc, codes "Arc")
    ∷ (common_arc, codes "CommonArc")
    ∷ (membership_arc, codes "MembershipArc")
    ∷ (const, codes "Const")
    ∷ (var, codes "Var")
    ∷ (const_node, codes "ConstNode")
    ∷ (var_node, codes "VarNode")
    ∷ (const_connector, codes "ConstConnector")
    ∷ (var_connector, codes "VarConnector")
    ∷ (const_common_edge, codes "ConstCommonEdge")
    ∷ (var_common_edge, codes "VarCommonEdge")
    ∷ (const_arc, codes "ConstArc")
    ∷ (var_arc, codes "VarArc")
    ∷ (const_common_arc, codes "ConstCommonArc")
    ∷ (var_common_arc, codes "VarCommonArc")
    ∷ (const_membership_arc, codes "ConstMembershipArc")
    ∷ (var_membership_arc, codes "VarMembershipArc")
    ∷ (perm_arc, codes "PermArc")
    ∷ (temp_arc, codes "TempArc")
    ∷ (const_perm_arc, codes "ConstPermArc")
    ∷ (var_perm_arc, codes "VarPermArc")
    ∷ (const_temp_arc, codes "ConstTempArc")
    ∷ (var_temp_arc, codes "VarTempArc")
    ∷ (actual_temp_arc, codes "ActualTempArc")
    ∷ (inactual_temp_arc, codes "InactualTempArc")
    ∷ (const_actual_temp_arc, codes "ConstActualTempArc")
    ∷ (var_actual_temp_arc, codes "VarActualTempArc")
    ∷ (const_inactual_temp_arc, codes "ConstInactualTempArc")
    ∷ (var_inactual_temp_arc, codes "VarInactualTempArc")
    ∷ (pos_arc, codes "PosArc")
    ∷ (neg_arc, codes "NegArc")
    ∷ (fuz_arc, codes "FuzArc")
    ∷ (const_pos_arc, codes "ConstPosArc")
    ∷ (var_pos_arc, codes "VarPosArc")
    ∷ (perm_pos_arc, codes "PermPosArc")
    ∷ (temp_pos_arc, codes "TempPosArc")
    ∷ (actual_temp_pos_arc, codes "ActualTempPosArc")
    ∷ (inactual_temp_pos_arc, codes "InactualTempPosArc")
    ∷ (const_perm_pos_arc, codes "ConstPermPosArc")
    ∷ (const_temp_pos_arc, codes "ConstTempPosArc")
    ∷ (const_actual_temp_pos_arc, codes "ConstActualTempPosArc")
    ∷ (const_inactual_temp_pos_arc, codes "ConstInactualTempPosArc")
    ∷ (var_perm_pos_arc, codes "VarPermPosArc")
    ∷ (var_temp_pos_arc, codes "VarTempPosArc")
    ∷ (var_actual_temp_pos_arc, codes "VarActualTempPosArc")
    ∷ (var_inactual_temp_pos_arc, codes "VarInactualTempPosArc")
    ∷ (const_neg_arc, codes "ConstNegArc")
    ∷ (var_neg_arc, codes "VarNegArc")
    ∷ (perm_neg_arc, codes "PermNegArc")
    ∷ (temp_neg_arc, codes "TempNegArc")
    ∷ (actual_temp_neg_arc, codes "ActualTempNegArc")
    ∷ (inactual_temp_neg_arc, codes "InactualTempNegArc")
    ∷ (const_perm_neg_arc, codes "ConstPermNegArc")
    ∷ (const_temp_neg_arc, codes "ConstTempNegArc")
    ∷ (const_actual_temp_neg_arc, codes "ConstActualTempNegArc")
    ∷ (const_inactual_temp_neg_arc, codes "ConstInactualTempNegArc")
    ∷ (var_perm_neg_arc, codes "VarPermNegArc")
    ∷ (var_temp_neg_arc, codes "VarTempNegArc")
    ∷ (var_actual_temp_neg_arc, codes "VarActualTempNegArc")
    ∷ (var_inactual_temp_neg_arc, codes "VarInactualTempNegArc")
    ∷ (const_fuz_arc, codes "ConstFuzArc")
    ∷ (var_fuz_arc, codes "VarFuzArc")
    ∷ (node_link, codes "NodeLink")
    ∷ (node_link_class, codes "NodeLinkClass")
    ∷ (node_tuple, codes "NodeTuple")
    ∷ (node_structure, codes "NodeStructure")
    ∷ (node_role, codes "NodeRole")
    ∷ (node_non_role, codes "NodeNonRole")
    ∷ (node_class, codes "NodeClass")
    ∷ (node_superclass, codes "NodeSuperclass")
    ∷ (node_material, codes "NodeMaterial")
    ∷ (const_node_link, codes "ConstNodeLink")
    ∷ (const_node_link_class, codes "ConstNodeLinkClass")
    ∷ (const_node_tuple, codes "ConstNodeTuple")
    ∷ (const_node_structure, codes "ConstNodeStructure")
    ∷ (const_node_role, codes "ConstNodeRole")
    ∷ (const_node_non_role, codes "ConstNodeNonRole")
    ∷ (const_node_class, codes "ConstNodeClass")
    ∷ (const_node_superclass, codes "ConstNodeSuperclass")
    ∷ (const_node_material, codes "ConstNodeMaterial")
    ∷ (var_node_link, codes "VarNodeLink")
    ∷ (var_node_link_class, codes "VarNodeLinkClass")
    ∷ (var_node_tuple, codes "VarNodeTuple")
    ∷ (var_node_structure, codes "VarNodeStructure")
    ∷ (var_node_role, codes "VarNodeRole")
    ∷ (var_node_non_role, codes "VarNodeNonRole")
    ∷ (var_node_class, codes "VarNodeClass")
    ∷ (var_node_superclass, codes "VarNodeSuperclass")
    ∷ (var_node_material, codes "VarNodeMaterial")
    ∷ []
