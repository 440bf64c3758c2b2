-- ===== src/ScType/Elements.antt =====
-- The `ScType` constants of sc-memory/sc-memory/src/sc_type.cpp: sc-elements, constancy, permanency,
-- actuality, and the semantic types of sc-nodes.
use sc_memory_knowledge_sync.Base.{ℕ, bit_or}
use sc_memory_knowledge_sync.ScType.Flags.{
  sc_type_actual_arc, sc_type_arc, sc_type_common_arc, sc_type_common_edge, sc_type_connector,
  sc_type_const, sc_type_const_node, sc_type_inactual_arc, sc_type_membership_arc, sc_type_node,
  sc_type_node_class, sc_type_node_link, sc_type_node_material, sc_type_node_non_role,
  sc_type_node_role, sc_type_node_structure, sc_type_node_superclass, sc_type_node_tuple,
  sc_type_perm_arc, sc_type_temp_arc, sc_type_unknown, sc_type_var,
}

abbrev pub unknown : ℕ
unknown = sc_type_unknown

abbrev pub node : ℕ
node = sc_type_node

abbrev pub connector : ℕ
connector = sc_type_connector

abbrev pub common_edge : ℕ
common_edge = sc_type_common_edge

abbrev pub arc : ℕ
arc = sc_type_arc

abbrev pub common_arc : ℕ
common_arc = sc_type_common_arc

abbrev pub membership_arc : ℕ
membership_arc = sc_type_membership_arc

abbrev pub const : ℕ
const = sc_type_const

abbrev pub var : ℕ
var = sc_type_var

abbrev pub const_node : ℕ
const_node = sc_type_const_node

abbrev pub var_node : ℕ
var_node = bit_or sc_type_var sc_type_node

abbrev pub const_connector : ℕ
const_connector = bit_or sc_type_const sc_type_connector

abbrev pub var_connector : ℕ
var_connector = bit_or sc_type_var sc_type_connector

abbrev pub const_common_edge : ℕ
const_common_edge = bit_or sc_type_const sc_type_common_edge

abbrev pub var_common_edge : ℕ
var_common_edge = bit_or sc_type_var sc_type_common_edge

abbrev pub const_arc : ℕ
const_arc = bit_or sc_type_const sc_type_arc

abbrev pub var_arc : ℕ
var_arc = bit_or sc_type_var sc_type_arc

abbrev pub const_common_arc : ℕ
const_common_arc = bit_or sc_type_const sc_type_common_arc

abbrev pub var_common_arc : ℕ
var_common_arc = bit_or sc_type_var sc_type_common_arc

abbrev pub const_membership_arc : ℕ
const_membership_arc = bit_or sc_type_const sc_type_membership_arc

abbrev pub var_membership_arc : ℕ
var_membership_arc = bit_or sc_type_var sc_type_membership_arc

abbrev pub perm_arc : ℕ
perm_arc = sc_type_perm_arc

abbrev pub temp_arc : ℕ
temp_arc = sc_type_temp_arc

abbrev pub const_perm_arc : ℕ
const_perm_arc = bit_or sc_type_const sc_type_perm_arc

abbrev pub var_perm_arc : ℕ
var_perm_arc = bit_or sc_type_var sc_type_perm_arc

abbrev pub const_temp_arc : ℕ
const_temp_arc = bit_or sc_type_const sc_type_temp_arc

abbrev pub var_temp_arc : ℕ
var_temp_arc = bit_or sc_type_var sc_type_temp_arc

abbrev pub actual_temp_arc : ℕ
actual_temp_arc = bit_or sc_type_actual_arc sc_type_temp_arc

abbrev pub inactual_temp_arc : ℕ
inactual_temp_arc = bit_or sc_type_inactual_arc sc_type_temp_arc

abbrev pub const_actual_temp_arc : ℕ
const_actual_temp_arc = bit_or (bit_or sc_type_const sc_type_actual_arc) sc_type_temp_arc

abbrev pub var_actual_temp_arc : ℕ
var_actual_temp_arc = bit_or (bit_or sc_type_var sc_type_actual_arc) sc_type_temp_arc

abbrev pub const_inactual_temp_arc : ℕ
const_inactual_temp_arc = bit_or (bit_or sc_type_const sc_type_inactual_arc) sc_type_temp_arc

abbrev pub var_inactual_temp_arc : ℕ
var_inactual_temp_arc = bit_or (bit_or sc_type_var sc_type_inactual_arc) sc_type_temp_arc

abbrev pub node_link : ℕ
node_link = sc_type_node_link

abbrev pub node_link_class : ℕ
node_link_class = bit_or sc_type_node_link sc_type_node_class

abbrev pub node_tuple : ℕ
node_tuple = sc_type_node_tuple

abbrev pub node_structure : ℕ
node_structure = sc_type_node_structure

abbrev pub node_role : ℕ
node_role = sc_type_node_role

abbrev pub node_non_role : ℕ
node_non_role = sc_type_node_non_role

abbrev pub node_class : ℕ
node_class = sc_type_node_class

abbrev pub node_superclass : ℕ
node_superclass = sc_type_node_superclass

abbrev pub node_material : ℕ
node_material = sc_type_node_material

abbrev pub const_node_link : ℕ
const_node_link = bit_or sc_type_const sc_type_node_link

abbrev pub const_node_link_class : ℕ
const_node_link_class = bit_or (bit_or sc_type_const sc_type_node_link) sc_type_node_class

abbrev pub const_node_tuple : ℕ
const_node_tuple = bit_or sc_type_const sc_type_node_tuple

abbrev pub const_node_structure : ℕ
const_node_structure = bit_or sc_type_const sc_type_node_structure

abbrev pub const_node_role : ℕ
const_node_role = bit_or sc_type_const sc_type_node_role

abbrev pub const_node_non_role : ℕ
const_node_non_role = bit_or sc_type_const sc_type_node_non_role

abbrev pub const_node_class : ℕ
const_node_class = bit_or sc_type_const sc_type_node_class

abbrev pub const_node_superclass : ℕ
const_node_superclass = bit_or sc_type_const sc_type_node_superclass

abbrev pub const_node_material : ℕ
const_node_material = bit_or sc_type_const sc_type_node_material

abbrev pub var_node_link : ℕ
var_node_link = bit_or sc_type_var sc_type_node_link

abbrev pub var_node_link_class : ℕ
var_node_link_class = bit_or (bit_or sc_type_var sc_type_node_link) sc_type_node_class

abbrev pub var_node_tuple : ℕ
var_node_tuple = bit_or sc_type_var sc_type_node_tuple

abbrev pub var_node_structure : ℕ
var_node_structure = bit_or sc_type_var sc_type_node_structure

abbrev pub var_node_role : ℕ
var_node_role = bit_or sc_type_var sc_type_node_role

abbrev pub var_node_non_role : ℕ
var_node_non_role = bit_or sc_type_var sc_type_node_non_role

abbrev pub var_node_class : ℕ
var_node_class = bit_or sc_type_var sc_type_node_class

abbrev pub var_node_superclass : ℕ
var_node_superclass = bit_or sc_type_var sc_type_node_superclass

abbrev pub var_node_material : ℕ
var_node_material = bit_or sc_type_var sc_type_node_material
