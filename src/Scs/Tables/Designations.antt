-- ===== src/Scs/Tables/Designations.antt =====
-- sc-memory/sc-memory/src/scs/scs_types.cpp: the types that the
-- designations of sc-connectors stand for.
use sc_memory_knowledge_sync.Base.{ℕ, List, [], ◌∷◌, Str, codes}
use sc_memory_knowledge_sync.ScType.Elements.{
  common_edge, common_arc, membership_arc, const_common_edge, var_common_edge, const_common_arc,
  var_common_arc, const_membership_arc, var_membership_arc, perm_arc, temp_arc, actual_temp_arc,
  inactual_temp_arc, const_perm_arc, var_perm_arc, const_temp_arc, var_temp_arc,
  const_actual_temp_arc, var_actual_temp_arc, const_inactual_temp_arc, var_inactual_temp_arc,
}
use sc_memory_knowledge_sync.ScType.Arcs.{
  pos_arc, neg_arc, fuz_arc, const_pos_arc, var_pos_arc, const_neg_arc, var_neg_arc, perm_pos_arc,
  perm_neg_arc, temp_pos_arc, actual_temp_pos_arc, inactual_temp_pos_arc, temp_neg_arc,
  actual_temp_neg_arc, inactual_temp_neg_arc, const_perm_pos_arc, var_perm_pos_arc,
  const_perm_neg_arc, var_perm_neg_arc, const_fuz_arc, var_fuz_arc, const_temp_pos_arc,
  var_temp_pos_arc, const_actual_temp_pos_arc, var_actual_temp_pos_arc, const_inactual_temp_pos_arc,
  var_inactual_temp_pos_arc, const_temp_neg_arc, var_temp_neg_arc, const_actual_temp_neg_arc,
  var_actual_temp_neg_arc, const_inactual_temp_neg_arc, var_inactual_temp_neg_arc,
}

abbrev pub connectors_to_types : List (Str × ℕ)
connectors_to_types =
    (codes "?<=>", common_edge)
    ∷ (codes "?=>", common_arc)
    ∷ (codes "<=?", common_arc)
    ∷ (codes "?.?>", membership_arc)
    ∷ (codes "<?.?", membership_arc)
    ∷ (codes "<=>", const_common_edge)
    ∷ (codes "_<=>", var_common_edge)
    ∷ (codes "=>", const_common_arc)
    ∷ (codes "<=", const_common_arc)
    ∷ (codes "_=>", var_common_arc)
    ∷ (codes "<=_", var_common_arc)
    ∷ (codes ".?>", const_membership_arc)
    ∷ (codes "<?.", const_membership_arc)
    ∷ (codes "_.?>", var_membership_arc)
    ∷ (codes "<?._", var_membership_arc)
    ∷ (codes "?.>", pos_arc)
    ∷ (codes "<.?", pos_arc)
    ∷ (codes "?.|>", neg_arc)
    ∷ (codes "<|.?", neg_arc)
    ∷ (codes "?/>", fuz_arc)
    ∷ (codes "</?", fuz_arc)
    ∷ (codes ".>", const_pos_arc)
    ∷ (codes "<.", const_pos_arc)
    ∷ (codes "_.>", var_pos_arc)
    ∷ (codes "<._", var_pos_arc)
    ∷ (codes ".|>", const_neg_arc)
    ∷ (codes "<|.", const_neg_arc)
    ∷ (codes "_.|>", var_neg_arc)
    ∷ (codes "<|._", var_neg_arc)
    ∷ (codes "?-?>", perm_arc)
    ∷ (codes "<?-?", perm_arc)
    ∷ (codes "?..?>", temp_arc)
    ∷ (codes "<?..?", temp_arc)
    ∷ (codes "?~?>", actual_temp_arc)
    ∷ (codes "<?~?", actual_temp_arc)
    ∷ (codes "?%?>", inactual_temp_arc)
    ∷ (codes "<?%?", inactual_temp_arc)
    ∷ (codes "-?>", const_perm_arc)
    ∷ (codes "<?-", const_perm_arc)
    ∷ (codes "_-?>", var_perm_arc)
    ∷ (codes "<?-_", var_perm_arc)
    ∷ (codes "..?>", const_temp_arc)
    ∷ (codes "<?..", const_temp_arc)
    ∷ (codes "_..?>", var_temp_arc)
    ∷ (codes "<?.._", var_temp_arc)
    ∷ (codes "~?>", const_actual_temp_arc)
    ∷ (codes "<?~", const_actual_temp_arc)
    ∷ (codes "_~?>", var_actual_temp_arc)
    ∷ (codes "<?~_", var_actual_temp_arc)
    ∷ (codes "%?>", const_inactual_temp_arc)
    ∷ (codes "<?%", const_inactual_temp_arc)
    ∷ (codes "_%?>", var_inactual_temp_arc)
    ∷ (codes "<?%_", var_inactual_temp_arc)
    ∷ (codes "?->", perm_pos_arc)
    ∷ (codes "<-?", perm_pos_arc)
    ∷ (codes "?-|>", perm_neg_arc)
    ∷ (codes "<|-?", perm_neg_arc)
    ∷ (codes "?..>", temp_pos_arc)
    ∷ (codes "<..?", temp_pos_arc)
    ∷ (codes "?~>", actual_temp_pos_arc)
    ∷ (codes "<~?", actual_temp_pos_arc)
    ∷ (codes "?%>", inactual_temp_pos_arc)
    ∷ (codes "<%?", inactual_temp_pos_arc)
    ∷ (codes "?..|>", temp_neg_arc)
    ∷ (codes "<|..?", temp_neg_arc)
    ∷ (codes "?~|>", actual_temp_neg_arc)
    ∷ (codes "<|~?", actual_temp_neg_arc)
    ∷ (codes "?%|>", inactual_temp_neg_arc)
    ∷ (codes "<|%?", inactual_temp_neg_arc)
    ∷ (codes "->", const_perm_pos_arc)
    ∷ (codes "<-", const_perm_pos_arc)
    ∷ (codes "_->", var_perm_pos_arc)
    ∷ (codes "<-_", var_perm_pos_arc)
    ∷ (codes "-|>", const_perm_neg_arc)
    ∷ (codes "<|-", const_perm_neg_arc)
    ∷ (codes "_-|>", var_perm_neg_arc)
    ∷ (codes "<|-_", var_perm_neg_arc)
    ∷ (codes "/>", const_fuz_arc)
    ∷ (codes "</", const_fuz_arc)
    ∷ (codes "_/>", var_fuz_arc)
    ∷ (codes "</_", var_fuz_arc)
    ∷ (codes "..>", const_temp_pos_arc)
    ∷ (codes "<..", const_temp_pos_arc)
    ∷ (codes "_..>", var_temp_pos_arc)
    ∷ (codes "<.._", var_temp_pos_arc)
    ∷ (codes "~>", const_actual_temp_pos_arc)
    ∷ (codes "<~", const_actual_temp_pos_arc)
    ∷ (codes "_~>", var_actual_temp_pos_arc)
    ∷ (codes "<~_", var_actual_temp_pos_arc)
    ∷ (codes "%>", const_inactual_temp_pos_arc)
    ∷ (codes "<%", const_inactual_temp_pos_arc)
    ∷ (codes "_%>", var_inactual_temp_pos_arc)
    ∷ (codes "<%_", var_inactual_temp_pos_arc)
    ∷ (codes "..|>", const_temp_neg_arc)
    ∷ (codes "<|..", const_temp_neg_arc)
    ∷ (codes "_..|>", var_temp_neg_arc)
    ∷ (codes "<|.._", var_temp_neg_arc)
    ∷ (codes "~|>", const_actual_temp_neg_arc)
    ∷ (codes "<|~", const_actual_temp_neg_arc)
    ∷ (codes "_~|>", var_actual_temp_neg_arc)
    ∷ (codes "<|~_", var_actual_temp_neg_arc)
    ∷ (codes "%|>", const_inactual_temp_neg_arc)
    ∷ (codes "<|%", const_inactual_temp_neg_arc)
    ∷ (codes "_%|>", var_inactual_temp_neg_arc)
    ∷ (codes "<|%_", var_inactual_temp_neg_arc)
    ∷ []

abbrev pub deprecated_connectors_to_types : List (Str × ℕ)
deprecated_connectors_to_types = (codes ">", common_arc) ∷ (codes "<>", common_edge) ∷ []

abbrev pub deprecated_reverse_connectors_to_types : List (Str × ℕ)
deprecated_reverse_connectors_to_types =
    (codes "<", common_arc)
    ∷ (codes "_<=", var_common_arc)
    ∷ (codes "_<-", var_perm_pos_arc)
    ∷ (codes "_<|-", var_perm_neg_arc)
    ∷ (codes "_<~", var_actual_temp_pos_arc)
    ∷ (codes "_<|~", var_actual_temp_neg_arc)
    ∷ []
