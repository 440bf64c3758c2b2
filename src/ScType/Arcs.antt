-- ===== src/ScType/Arcs.antt =====
-- The `ScType` constants of sc-memory/sc-memory/src/sc_type.cpp for positive, negative and fuzzy
-- sc-arcs.
use sc_memory_knowledge_sync.Base.{ℕ, bit_or}
use sc_memory_knowledge_sync.ScType.Flags.{
  sc_type_actual_arc, sc_type_const, sc_type_fuz_arc, sc_type_inactual_arc, sc_type_neg_arc,
  sc_type_perm_arc, sc_type_pos_arc, sc_type_temp_arc, sc_type_var,
}

abbrev pub pos_arc : ℕ
pos_arc = sc_type_pos_arc

abbrev pub neg_arc : ℕ
neg_arc = sc_type_neg_arc

abbrev pub fuz_arc : ℕ
fuz_arc = sc_type_fuz_arc

abbrev pub const_pos_arc : ℕ
const_pos_arc = bit_or sc_type_const sc_type_pos_arc

abbrev pub var_pos_arc : ℕ
var_pos_arc = bit_or sc_type_var sc_type_pos_arc

abbrev pub perm_pos_arc : ℕ
perm_pos_arc = bit_or sc_type_perm_arc sc_type_pos_arc

abbrev pub temp_pos_arc : ℕ
temp_pos_arc = bit_or sc_type_temp_arc sc_type_pos_arc

abbrev pub actual_temp_pos_arc : ℕ
actual_temp_pos_arc = bit_or (bit_or sc_type_actual_arc sc_type_temp_arc) sc_type_pos_arc

abbrev pub inactual_temp_pos_arc : ℕ
inactual_temp_pos_arc = bit_or (bit_or sc_type_inactual_arc sc_type_temp_arc) sc_type_pos_arc

abbrev pub const_perm_pos_arc : ℕ
const_perm_pos_arc = bit_or (bit_or sc_type_const sc_type_perm_arc) sc_type_pos_arc

abbrev pub const_temp_pos_arc : ℕ
const_temp_pos_arc = bit_or (bit_or sc_type_const sc_type_temp_arc) sc_type_pos_arc

abbrev pub const_actual_temp_pos_arc : ℕ
const_actual_temp_pos_arc =
    bit_or (bit_or (bit_or sc_type_const sc_type_actual_arc) sc_type_temp_arc) sc_type_pos_arc

abbrev pub const_inactual_temp_pos_arc : ℕ
const_inactual_temp_pos_arc =
    bit_or (bit_or (bit_or sc_type_const sc_type_inactual_arc) sc_type_temp_arc) sc_type_pos_arc

abbrev pub var_perm_pos_arc : ℕ
var_perm_pos_arc = bit_or (bit_or sc_type_var sc_type_perm_arc) sc_type_pos_arc

abbrev pub var_temp_pos_arc : ℕ
var_temp_pos_arc = bit_or (bit_or sc_type_var sc_type_temp_arc) sc_type_pos_arc

abbrev pub var_actual_temp_pos_arc : ℕ
var_actual_temp_pos_arc =
    bit_or (bit_or (bit_or sc_type_var sc_type_actual_arc) sc_type_temp_arc) sc_type_pos_arc

abbrev pub var_inactual_temp_pos_arc : ℕ
var_inactual_temp_pos_arc =
    bit_or (bit_or (bit_or sc_type_var sc_type_inactual_arc) sc_type_temp_arc) sc_type_pos_arc

abbrev pub const_neg_arc : ℕ
const_neg_arc = bit_or sc_type_const sc_type_neg_arc

abbrev pub var_neg_arc : ℕ
var_neg_arc = bit_or sc_type_var sc_type_neg_arc

abbrev pub perm_neg_arc : ℕ
perm_neg_arc = bit_or sc_type_perm_arc sc_type_neg_arc

abbrev pub temp_neg_arc : ℕ
temp_neg_arc = bit_or sc_type_temp_arc sc_type_neg_arc

abbrev pub actual_temp_neg_arc : ℕ
actual_temp_neg_arc = bit_or (bit_or sc_type_actual_arc sc_type_temp_arc) sc_type_neg_arc

abbrev pub inactual_temp_neg_arc : ℕ
inactual_temp_neg_arc = bit_or (bit_or sc_type_inactual_arc sc_type_temp_arc) sc_type_neg_arc

abbrev pub const_perm_neg_arc : ℕ
const_perm_neg_arc = bit_or (bit_or sc_type_const sc_type_perm_arc) sc_type_neg_arc

abbrev pub const_temp_neg_arc : ℕ
const_temp_neg_arc = bit_or (bit_or sc_type_const sc_type_temp_arc) sc_type_neg_arc

abbrev pub const_actual_temp_neg_arc : ℕ
const_actual_temp_neg_arc =
    bit_or (bit_or (bit_or sc_type_const sc_type_actual_arc) sc_type_temp_arc) sc_type_neg_arc

abbrev pub const_inactual_temp_neg_arc : ℕ
const_inactual_temp_neg_arc =
    bit_or (bit_or (bit_or sc_type_const sc_type_inactual_arc) sc_type_temp_arc) sc_type_neg_arc

abbrev pub var_perm_neg_arc : ℕ
var_perm_neg_arc = bit_or (bit_or sc_type_var sc_type_perm_arc) sc_type_neg_arc

abbrev pub var_temp_neg_arc : ℕ
var_temp_neg_arc = bit_or (bit_or sc_type_var sc_type_temp_arc) sc_type_neg_arc

abbrev pub var_actual_temp_neg_arc : ℕ
var_actual_temp_neg_arc =
    bit_or (bit_or (bit_or sc_type_var sc_type_actual_arc) sc_type_temp_arc) sc_type_neg_arc

abbrev pub var_inactual_temp_neg_arc : ℕ
var_inactual_temp_neg_arc =
    bit_or (bit_or (bit_or sc_type_var sc_type_inactual_arc) sc_type_temp_arc) sc_type_neg_arc

abbrev pub const_fuz_arc : ℕ
const_fuz_arc = bit_or sc_type_const sc_type_fuz_arc

abbrev pub var_fuz_arc : ℕ
var_fuz_arc = bit_or sc_type_var sc_type_fuz_arc
