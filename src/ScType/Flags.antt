-- ===== src/ScType/Flags.antt =====
-- The flags of an `sc_type`, a 16-bit word, as sc-memory/sc-core/include/sc-core/sc_types.h defines
-- them, and its tests on flags and masks.
use sc_memory_knowledge_sync.Base.{ℕ, Bool, not, bit_and, bit_or, ◌==◌}

abbrev pub sc_type_unknown : ℕ
sc_type_unknown = 0

abbrev pub sc_type_node : ℕ
sc_type_node = 0x1

abbrev pub sc_type_connector : ℕ
sc_type_connector = 0x4000

abbrev pub sc_type_common_edge : ℕ
sc_type_common_edge = bit_or sc_type_connector 0x4

abbrev pub sc_type_arc : ℕ
sc_type_arc = bit_or sc_type_connector 0x8000

abbrev pub sc_type_common_arc : ℕ
sc_type_common_arc = bit_or sc_type_arc 0x8

abbrev pub sc_type_membership_arc : ℕ
sc_type_membership_arc = bit_or sc_type_arc 0x10

abbrev pub sc_type_const : ℕ
sc_type_const = 0x20

abbrev pub sc_type_var : ℕ
sc_type_var = 0x40

abbrev pub sc_type_actual_arc : ℕ
sc_type_actual_arc = bit_or sc_type_membership_arc 0x1000

abbrev pub sc_type_inactual_arc : ℕ
sc_type_inactual_arc = bit_or sc_type_membership_arc 0x2000

abbrev pub sc_type_temp_arc : ℕ
sc_type_temp_arc = bit_or sc_type_membership_arc 0x400

abbrev pub sc_type_perm_arc : ℕ
sc_type_perm_arc = bit_or sc_type_membership_arc 0x800

abbrev pub sc_type_pos_arc : ℕ
sc_type_pos_arc = bit_or sc_type_membership_arc 0x80

abbrev pub sc_type_neg_arc : ℕ
sc_type_neg_arc = bit_or sc_type_membership_arc 0x100

abbrev pub sc_type_fuz_arc : ℕ
sc_type_fuz_arc = bit_or sc_type_membership_arc 0x200

abbrev pub sc_type_node_link : ℕ
sc_type_node_link = bit_or sc_type_node 0x2

abbrev pub sc_type_node_tuple : ℕ
sc_type_node_tuple = bit_or sc_type_node 0x80

abbrev pub sc_type_node_structure : ℕ
sc_type_node_structure = bit_or sc_type_node 0x100

abbrev pub sc_type_node_role : ℕ
sc_type_node_role = bit_or sc_type_node 0x200

abbrev pub sc_type_node_non_role : ℕ
sc_type_node_non_role = bit_or sc_type_node 0x400

abbrev pub sc_type_node_class : ℕ
sc_type_node_class = bit_or sc_type_node 0x800

abbrev pub sc_type_node_superclass : ℕ
sc_type_node_superclass = bit_or sc_type_node 0x1000

abbrev pub sc_type_node_material : ℕ
sc_type_node_material = bit_or sc_type_node 0x2000

abbrev pub sc_type_const_node : ℕ
sc_type_const_node = bit_or sc_type_const sc_type_node

abbrev pub sc_type_element_mask : ℕ
sc_type_element_mask = bit_or sc_type_node sc_type_connector

abbrev pub sc_type_connector_mask : ℕ
sc_type_connector_mask =
    bit_or (bit_or sc_type_common_edge sc_type_common_arc) sc_type_membership_arc

abbrev pub sc_type_arc_mask : ℕ
sc_type_arc_mask = bit_or sc_type_common_arc sc_type_membership_arc

abbrev pub sc_type_constancy_mask : ℕ
sc_type_constancy_mask = bit_or sc_type_const sc_type_var

abbrev pub sc_type_actuality_mask : ℕ
sc_type_actuality_mask = bit_or sc_type_actual_arc sc_type_inactual_arc

abbrev pub sc_type_permanency_mask : ℕ
sc_type_permanency_mask = bit_or sc_type_perm_arc sc_type_temp_arc

abbrev pub sc_type_positivity_mask : ℕ
sc_type_positivity_mask = bit_or sc_type_pos_arc sc_type_neg_arc

abbrev pub sc_type_membership_arc_mask : ℕ
sc_type_membership_arc_mask =
    bit_or (bit_or sc_type_actuality_mask sc_type_permanency_mask) sc_type_positivity_mask

abbrev pub sc_type_common_arc_mask : ℕ
sc_type_common_arc_mask = sc_type_common_arc

abbrev pub sc_type_common_edge_mask : ℕ
sc_type_common_edge_mask = sc_type_common_edge

abbrev pub sc_type_node_mask : ℕ
sc_type_node_mask =
    bit_or
      (bit_or
        (bit_or
          (bit_or
            (bit_or (bit_or (bit_or sc_type_node_link sc_type_node_tuple) sc_type_node_structure)
              sc_type_node_role)
            sc_type_node_non_role)
          sc_type_node_class)
        sc_type_node_superclass)
      sc_type_node_material

abbrev pub sc_type_node_link_mask : ℕ
sc_type_node_link_mask = bit_or (bit_or sc_type_node sc_type_node_link) sc_type_node_class

unfoldable pub sc_type_has_subtype : ℕ → ℕ → Bool
sc_type_has_subtype t s = bit_and t s == s

unfoldable pub sc_type_has_subtype_in_mask : ℕ → ℕ → Bool
sc_type_has_subtype_in_mask t mask = not (bit_and t mask == 0)

unfoldable pub sc_type_is_node : ℕ → Bool
unfolding sc_type_has_subtype
sc_type_is_node t = sc_type_has_subtype t sc_type_node

unfoldable pub sc_type_is_node_link : ℕ → Bool
unfolding sc_type_has_subtype
sc_type_is_node_link t = sc_type_has_subtype t sc_type_node_link

unfoldable pub sc_type_is_connector : ℕ → Bool
unfolding sc_type_has_subtype
sc_type_is_connector t = sc_type_has_subtype t sc_type_connector

unfoldable pub sc_type_is_common_edge : ℕ → Bool
unfolding sc_type_has_subtype
sc_type_is_common_edge t = sc_type_has_subtype t sc_type_common_edge

unfoldable pub sc_type_is_arc : ℕ → Bool
unfolding sc_type_has_subtype
sc_type_is_arc t = sc_type_has_subtype t sc_type_arc

unfoldable pub sc_type_is_common_arc : ℕ → Bool
unfolding sc_type_has_subtype
sc_type_is_common_arc t = sc_type_has_subtype t sc_type_common_arc

unfoldable pub sc_type_is_membership_arc : ℕ → Bool
unfolding sc_type_has_subtype
sc_type_is_membership_arc t = sc_type_has_subtype t sc_type_membership_arc
