-- ===== src/Scs/Tables/Keynodes.antt =====
-- sc-memory/sc-memory/src/scs/scs_types.cpp: the keynodes of the
-- types of sc-elements, and the designations that are read from right to left.
use sc_memory_knowledge_sync.Base.{ℕ, List, [], ◌∷◌, Str, codes}
use sc_memory_knowledge_sync.ScType.Elements.{
  node, node_link, node_link_class, node_tuple, node_structure, node_class, node_role,
  node_non_role, node_superclass, node_material, common_edge, common_arc, membership_arc,
}
use sc_memory_knowledge_sync.ScType.Arcs.{const_perm_pos_arc}

abbrev pub keynodes_to_types : List (Str × ℕ)
keynodes_to_types =
    (codes "sc_node", node)
    ∷ (codes "sc_link", node_link)
    ∷ (codes "sc_link_class", node_link_class)
    ∷ (codes "sc_node_tuple", node_tuple)
    ∷ (codes "sc_node_structure", node_structure)
    ∷ (codes "sc_node_class", node_class)
    ∷ (codes "sc_node_role_relation", node_role)
    ∷ (codes "sc_node_non_role_relation", node_non_role)
    ∷ (codes "sc_node_superclass", node_superclass)
    ∷ (codes "sc_node_material", node_material)
    ∷ (codes "sc_common_edge", common_edge)
    ∷ (codes "sc_common_arc", common_arc)
    ∷ (codes "sc_membership_arc", membership_arc)
    ∷ (codes "sc_main_arc", const_perm_pos_arc)
    ∷ []

abbrev pub deprecated_keynodes_to_types : List (Str × ℕ)
deprecated_keynodes_to_types =
    (codes "sc_node_not_binary_tuple", node_tuple)
    ∷ (codes "sc_node_struct", node_structure)
    ∷ (codes "sc_node_not_relation", node_class)
    ∷ (codes "sc_node_norole_relation", node_non_role)
    ∷ (codes "sc_edge", common_edge)
    ∷ (codes "sc_edge_ucommon", common_edge)
    ∷ (codes "sc_arc_common", common_arc)
    ∷ (codes "sc_edge_dcommon", common_arc)
    ∷ (codes "sc_arc_main", const_perm_pos_arc)
    ∷ (codes "sc_edge_main", const_perm_pos_arc)
    ∷ (codes "sc_arc_access", membership_arc)
    ∷ (codes "sc_edge_access", membership_arc)
    ∷ []

abbrev pub types_to_keynodes : List (ℕ × Str)
types_to_keynodes =
    (common_edge, codes "sc_common_edge")
    ∷ (common_arc, codes "sc_common_arc")
    ∷ (membership_arc, codes "sc_membership_arc")
    ∷ (const_perm_pos_arc, codes "sc_main_arc")
    ∷ (node, codes "sc_node")
    ∷ (node_link, codes "sc_link")
    ∷ (node_link_class, codes "sc_link_class")
    ∷ (node_tuple, codes "sc_node_tuple")
    ∷ (node_structure, codes "sc_node_structure")
    ∷ (node_class, codes "sc_node_class")
    ∷ (node_role, codes "sc_node_role_relation")
    ∷ (node_non_role, codes "sc_node_non_role_relation")
    ∷ (node_superclass, codes "sc_node_superclass")
    ∷ (node_material, codes "sc_node_material")
    ∷ []

abbrev pub reversed_connectors : List (Str)
reversed_connectors =
    codes "<=?"
    ∷ codes "<?.?"
    ∷ codes "<="
    ∷ codes "<=_"
    ∷ codes "<."
    ∷ codes "<._"
    ∷ codes "<?."
    ∷ codes "<?._"
    ∷ codes "<.?"
    ∷ codes "<|.?"
    ∷ codes "</?"
    ∷ codes "<?-?"
    ∷ codes "<?..?"
    ∷ codes "<?~?"
    ∷ codes "<?%?"
    ∷ codes "<-?"
    ∷ codes "<|-?"
    ∷ codes "<..?"
    ∷ codes "<~?"
    ∷ codes "<%?"
    ∷ codes "<|..?"
    ∷ codes "<|~?"
    ∷ codes "<|%?"
    ∷ codes "<-"
    ∷ codes "<-_"
    ∷ codes "<|-"
    ∷ codes "<|-_"
    ∷ codes "</"
    ∷ codes "</-"
    ∷ codes "</_"
    ∷ codes "</-_"
    ∷ codes "<.."
    ∷ codes "<.._"
    ∷ codes "<|.."
    ∷ codes "<|.._"
    ∷ codes "<~"
    ∷ codes "<~_"
    ∷ codes "<|~"
    ∷ codes "|<~_"
    ∷ codes "<%"
    ∷ codes "<%_"
    ∷ codes "<|%"
    ∷ codes "|<%_"
    ∷ []

abbrev pub deprecated_reversed_connectors : List (Str)
deprecated_reversed_connectors =
    codes "<" ∷ codes "_<=" ∷ codes "_<-" ∷ codes "_<|-" ∷ codes "_<~" ∷ codes "_<|~" ∷ []
