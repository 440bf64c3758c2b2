-- ===== src/Scs/TypeResolver/RoundTrip.antt =====
-- Writing a type by a designation and reading it back.
use sc_memory_knowledge_sync.Base.{
  ap, List, [], ◌∷◌, ◌↔◌, List, find_name, some, ℕ, ◌≡◌, ◌≢◌, refl, Bool, true, false, not, ◌||◌,
  ◌&&◌, [], Str, find_type, arith, ◌==◌, Option-cases, inl, inr, all,
}
use sc_memory_knowledge_sync.Base.Tables.{find_name-all, on_name, on_type, find_type-all}
use sc_memory_knowledge_sync.ScType.Elements.{
  var_inactual_temp_arc, const_inactual_temp_arc, var_actual_temp_arc, const_actual_temp_arc,
  var_temp_arc, const_temp_arc, var_perm_arc, const_perm_arc, unknown, var_arc,
}
use sc_memory_knowledge_sync.Scs.Tables.{types_to_connectors}
use sc_memory_knowledge_sync.Scs.TypeResolver.{
  or_empty, is_element_type, get_scs_element_keynode, get_reverse_scs_connector, get_element_type,
  get_direct_scs_connector, get_connector_type, is_connector_reversed,
}
use sc_memory_knowledge_sync.ScType.Methods.{is_common_edge}
use sc_memory_knowledge_sync.Scs.Tables.Connectors.{types_to_reverse_connectors}
use sc_memory_knowledge_sync.ScType.Arcs.{
  var_neg_arc, const_neg_arc, var_inactual_temp_neg_arc, var_actual_temp_neg_arc,
}
use sc_memory_knowledge_sync.Scs.Tables.Keynodes.{
  deprecated_keynodes_to_types, keynodes_to_types, types_to_keynodes,
}

abbrev reads_direct : ℕ → Str → Bool
reads_direct t s = (get_connector_type s == t || t == var_arc) && not (is_connector_reversed s)

reads_direct-table : all (on_type reads_direct) types_to_connectors ≡ true
unfolding get_connector_type is_connector_reversed
reads_direct-table = refl

-- The types of which the reverse designation is missing among the reversed ones: `<?-`, `<?-_`, `<?..`,
-- `<?.._`, `<?~`, `<?~_`, `<?%`, `<?%_`, `<|.`, `<|._`, `<|~_` and `<|%_`.
abbrev pub unmarked_types : List ℕ
unmarked_types =
    const_perm_arc ∷ var_perm_arc ∷ const_temp_arc ∷ var_temp_arc ∷ const_actual_temp_arc
    ∷ var_actual_temp_arc ∷ const_inactual_temp_arc ∷ var_inactual_temp_arc ∷ const_neg_arc
    ∷ var_neg_arc ∷ var_actual_temp_neg_arc ∷ var_inactual_temp_neg_arc ∷ []

unfoldable pub is_unmarked : ℕ → Bool
is_unmarked t = not (all (λ u. not (u == t)) unmarked_types)

-- Whether a reverse designation is known as such.
abbrev is_marked : ℕ → Bool
is_marked t = not (is_common_edge t || is_unmarked t)

abbrev same : Bool → Bool → Bool
same true b = b
same false b = not b

abbrev reads_reverse : ℕ → Str → Bool
reads_reverse t s =
    (get_connector_type s == t || t == var_arc) && same (is_connector_reversed s) (is_marked t)

reads_reverse-table : all (on_type reads_reverse) types_to_reverse_connectors ≡ true
unfolding get_connector_type is_connector_reversed is_common_edge is_unmarked
reads_reverse-table = refl

abbrev reads_keynode : ℕ → Str → Bool
reads_keynode t s = get_element_type s == t

reads_keynode-table : all (on_type reads_keynode) types_to_keynodes ≡ true
unfolding get_element_type
reads_keynode-table = refl

abbrev is_known : Str → ℕ → Bool
is_known s t = not (t == unknown)

keynodes-known : all (on_name is_known) keynodes_to_types ≡ true
keynodes-known = refl

deprecated_keynodes-known : all (on_name is_known) deprecated_keynodes_to_types ≡ true
deprecated_keynodes-known = refl

module _ (t : ℕ) where
  direct-reads : (s : Str) → find_type t types_to_connectors ≡ some s → reads_direct t s ≡ true
  direct-reads s e = find_type-all reads_direct t types_to_connectors s reads_direct-table e

  reverse-reads :
      (s : Str) → find_type t types_to_reverse_connectors ≡ some s → reads_reverse t s ≡ true
  reverse-reads s e =
      find_type-all reads_reverse t types_to_reverse_connectors s reads_reverse-table e

-- The direct designation of a type, if it has one, is not a reversed one, and is read back as the
-- type, unless the type is the variable arc.
pub get_connector_type-get_direct_scs_connector :
    (t : ℕ)
    → get_direct_scs_connector t ≢ []
    → t ≢ var_arc
    → (get_connector_type (get_direct_scs_connector t) ≡ t)
      × (is_connector_reversed (get_direct_scs_connector t) ≡ false)
unfolding get_direct_scs_connector
get_connector_type-get_direct_scs_connector t h ne =
    elim (Option-cases (find_type t types_to_connectors)) [
      | inl e ↦ absurd (h (ap or_empty e))
      | inr (s, e) ↦ rw e (ground (arith, direct-reads t s e))
    ]

reads_reverse-holds :
    (t : ℕ) (s : Str)
    → t ≢ var_arc
    → reads_reverse t s ≡ true
    → (get_connector_type s ≡ t)
      × (is_connector_reversed s ≡ not (is_common_edge t || is_unmarked t))
reads_reverse-holds t s ne h = ground arith

-- The reverse designation of a type, if it has one, is read back as the type, unless the type is the
-- variable arc; and it is known as reversed just if the type is neither a common edge nor one of the
-- twelve unmarked types.
pub get_connector_type-get_reverse_scs_connector :
    (t : ℕ)
    → get_reverse_scs_connector t ≢ []
    → t ≢ var_arc
    → (get_connector_type (get_reverse_scs_connector t) ≡ t)
      × (is_connector_reversed (get_reverse_scs_connector t)
          ≡ not (is_common_edge t || is_unmarked t))
unfolding get_reverse_scs_connector
get_connector_type-get_reverse_scs_connector t h ne =
    elim (Option-cases (find_type t types_to_reverse_connectors)) [
      | inl e ↦ absurd (h (ap or_empty e))
      | inr (s, e) ↦ rw e (reads_reverse-holds t s ne (reverse-reads t s e))
    ]

-- The keynode of a type, if it has one, is read back as the type.
pub get_element_type-get_scs_element_keynode :
    (t : ℕ) → get_scs_element_keynode t ≢ [] → get_element_type (get_scs_element_keynode t) ≡ t
unfolding get_scs_element_keynode
get_element_type-get_scs_element_keynode t h = elim (Option-cases (find_type t types_to_keynodes)) [
  | inl e ↦ absurd (h (ap or_empty e))
  | inr (s, e) ↦
      rw e (ground (arith, find_type-all reads_keynode t types_to_keynodes s reads_keynode-table e))
]

module _ (s : Str) where
  known : (t : ℕ) → find_name s keynodes_to_types ≡ some t → t ≢ unknown
  known t e = ground (arith, find_name-all is_known s keynodes_to_types t keynodes-known e)

  deprecated_known : (t : ℕ) → find_name s deprecated_keynodes_to_types ≡ some t → t ≢ unknown
  deprecated_known t e =
      ground
        (arith, find_name-all is_known s deprecated_keynodes_to_types t deprecated_keynodes-known e)

-- An identifier is one of an element type exactly when the type that it stands for is a known one.
pub is_element_type_iff : (s : Str) → (is_element_type s ≡ true) ↔ (get_element_type s ≢ unknown)
unfolding is_element_type get_element_type
is_element_type_iff s = elim (Option-cases (find_name s keynodes_to_types)) [
  | inr (t, e) ↦ rw (e, is_element_type, get_element_type) ((λ h. known s t e), (λ h. refl))
  | inl e ↦ elim (Option-cases (find_name s deprecated_keynodes_to_types)) [
    | inr (t, d) ↦
        rw (e, d, is_element_type, get_element_type) ((λ h. deprecated_known s t d), (λ h. refl))
    | inl d ↦ rw (e, d, is_element_type, get_element_type) ((λ h. cc), (λ h. absurd (h refl)))
  ]
]
