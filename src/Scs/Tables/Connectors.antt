-- ===== src/Scs/Tables/Connectors.antt =====
-- sc-memory/sc-memory/src/scs/scs_types.cpp: the designations that
-- the types of sc-connectors are written by.
use sc_memory_knowledge_sync.Base.{ℕ, List, [], ◌∷◌, Str, codes}
use sc_memory_knowledge_sync.ScType.Elements.{
  common_edge, common_arc, membership_arc, const_common_edge, var_common_edge, const_common_arc,
  var_common_arc, const_membership_arc, var_membership_arc, var_arc, perm_arc, temp_arc,
  actual_temp_arc, inactual_temp_arc, const_perm_arc, var_perm_arc, const_temp_arc, var_temp_arc,
  const_actual_temp_arc, var_actual_temp_arc, const_inactual_temp_arc, var_inactual_temp_arc,
}
use sc_memory_knowledge_sync.ScType.Arcs.{
  pos_arc, neg_arc, fuz_arc, perm_pos_arc, perm_neg_arc, temp_pos_arc, actual_temp_pos_arc,
  inactual_temp_pos_arc, temp_neg_arc, actual_temp_neg_arc, inactual_temp_neg_arc,
  const_perm_pos_arc, var_perm_pos_arc, const_perm_neg_arc, var_perm_neg_arc, const_pos_arc,
  var_pos_arc, const_neg_arc, var_neg_arc, const_fuz_arc, var_fuz_arc, const_temp_pos_arc,
  var_temp_pos_arc, const_actual_temp_pos_arc, var_actual_temp_pos_arc, const_inactual_temp_pos_arc,
  var_inactual_temp_pos_arc, const_temp_neg_arc, var_temp_neg_arc, const_actual_temp_neg_arc,
  var_actual_temp_neg_arc, const_inactual_temp_neg_arc, var_inactual_temp_neg_arc,
}

abbrev pub types_to_connectors : List (ℕ × Str)
types_to_connectors =
    (common_edge, codes "?<=>")
    ∷ (common_arc, codes "?=>")
    ∷ (membership_arc, codes "?.?>")
    ∷ (const_common_edge, codes "<=>")
    ∷ (var_common_edge, codes "_<=>")
    ∷ (const_common_arc, codes "=>")
    ∷ (var_common_arc, codes "_=>")
    ∷ (const_membership_arc, codes ".?>")
    ∷ (var_membership_arc, codes "_.?>")
    ∷ (var_arc, codes "_=>")
    ∷ (pos_arc, codes "?.>")
    ∷ (neg_arc, codes "?.|>")
    ∷ (fuz_arc, codes "?/>")
    ∷ (perm_arc, codes "?-?>")
    ∷ (temp_arc, codes "?..?>")
    ∷ (actual_temp_arc, codes "?~?>")
    ∷ (inactual_temp_arc, codes "?%?>")
    ∷ (const_perm_arc, codes "-?>")
    ∷ (var_perm_arc, codes "_-?>")
    ∷ (const_temp_arc, codes "..?>")
    ∷ (var_temp_arc, codes "_..?>")
    ∷ (const_actual_temp_arc, codes "~?>")
    ∷ (var_actual_temp_arc, codes "_~?>")
    ∷ (const_inactual_temp_arc, codes "%?>")
    ∷ (var_inactual_temp_arc, codes "_%?>")
    ∷ (perm_pos_arc, codes "?->")
    ∷ (perm_neg_arc, codes "?-|>")
    ∷ (temp_pos_arc, codes "?..>")
    ∷ (actual_temp_pos_arc, codes "?~>")
    ∷ (inactual_temp_pos_arc, codes "?%>")
    ∷ (temp_neg_arc, codes "?..|>")
    ∷ (actual_temp_neg_arc, codes "?~|>")
    ∷ (inactual_temp_neg_arc, codes "?%|>")
    ∷ (const_perm_pos_arc, codes "->")
    ∷ (var_perm_pos_arc, codes "_->")
    ∷ (const_perm_neg_arc, codes "-|>")
    ∷ (var_perm_neg_arc, codes "_-|>")
    ∷ (const_pos_arc, codes ".>")
    ∷ (var_pos_arc, codes "_.>")
    ∷ (const_neg_arc, codes ".|>")
    ∷ (var_neg_arc, codes "_.|>")
    ∷ (const_fuz_arc, codes "/>")
    ∷ (var_fuz_arc, codes "_/>")
    ∷ (const_temp_pos_arc, codes "..>")
    ∷ (var_temp_pos_arc, codes "_..>")
    ∷ (const_actual_temp_pos_arc, codes "~>")
    ∷ (var_actual_temp_pos_arc, codes "_~>")
    ∷ (const_inactual_temp_pos_arc, codes "%>")
    ∷ (var_inactual_temp_pos_arc, codes "_%>")
    ∷ (const_temp_neg_arc, codes "..|>")
    ∷ (var_temp_neg_arc, codes "_..|>")
    ∷ (const_actual_temp_neg_arc, codes "~|>")
    ∷ (var_actual_temp_neg_arc, codes "_~|>")
    ∷ (const_inactual_temp_neg_arc, codes "%|>")
    ∷ (var_inactual_temp_neg_arc, codes "_%|>")
    ∷ []

abbrev pub types_to_reverse_connectors : List (ℕ × Str)
types_to_reverse_connectors =
    (common_edge, codes "?<=>")
    ∷ (common_arc, codes "<=?")
    ∷ (membership_arc, codes "<?.?")
    ∷ (const_common_edge, codes "<=>")
    ∷ (var_common_edge, codes "_<=>")
    ∷ (const_common_arc, codes "<=")
    ∷ (var_common_arc, codes "<=_")
    ∷ (const_membership_arc, codes "<?.")
    ∷ (var_membership_arc, codes "<?._")
    ∷ (var_arc, codes "<=_")
    ∷ (pos_arc, codes "<.?")
    ∷ (neg_arc, codes "<|.?")
    ∷ (fuz_arc, codes "</?")
    ∷ (perm_arc, codes "<?-?")
    ∷ (temp_arc, codes "<?..?")
    ∷ (actual_temp_arc, codes "<?~?")
    ∷ (inactual_temp_arc, codes "<?%?")
    ∷ (const_perm_arc, codes "<?-")
    ∷ (var_perm_arc, codes "<?-_")
    ∷ (const_temp_arc, codes "<?..")
    ∷ (var_temp_arc, codes "<?.._")
    ∷ (const_actual_temp_arc, codes "<?~")
    ∷ (var_actual_temp_arc, codes "<?~_")
    ∷ (const_inactual_temp_arc, codes "<?%")
    ∷ (var_inactual_temp_arc, codes "<?%_")
    ∷ (perm_pos_arc, codes "<-?")
    ∷ (perm_neg_arc, codes "<|-?")
    ∷ (temp_pos_arc, codes "<..?")
    ∷ (actual_temp_pos_arc, codes "<~?")
    ∷ (inactual_temp_pos_arc, codes "<%?")
    ∷ (temp_neg_arc, codes "<|..?")
    ∷ (actual_temp_neg_arc, codes "<|~?")
    ∷ (inactual_temp_neg_arc, codes "<|%?")
    ∷ (const_perm_pos_arc, codes "<-")
    ∷ (var_perm_pos_arc, codes "<-_")
    ∷ (const_perm_neg_arc, codes "<|-")
    ∷ (var_perm_neg_arc, codes "<|-_")
    ∷ (const_pos_arc, codes "<.")
    ∷ (var_pos_arc, codes "<._")
    ∷ (const_neg_arc, codes "<|.")
    ∷ (var_neg_arc, codes "<|._")
    ∷ (const_fuz_arc, codes "</")
    ∷ (var_fuz_arc, codes "</_")
    ∷ (const_temp_pos_arc, codes "<..")
    ∷ (var_temp_pos_arc, codes "<.._")
    ∷ (const_actual_temp_pos_arc, codes "<~")
    ∷ (var_actual_temp_pos_arc, codes "<~_")
    ∷ (const_inactual_temp_pos_arc, codes "<%")
    ∷ (var_inactual_temp_pos_arc, codes "<%_")
    ∷ (const_temp_neg_arc, codes "<|..")
    ∷ (var_temp_neg_arc, codes "<|.._")
    ∷ (const_actual_temp_neg_arc, codes "<|~")
    ∷ (var_actual_temp_neg_arc, codes "<|~_")
    ∷ (const_inactual_temp_neg_arc, codes "<|%")
    ∷ (var_inactual_temp_neg_arc, codes "<|%_")
    ∷ []
