-- ===== src/Scs/TypeResolver.antt =====
-- `scs::TypeResolver` of sc-memory/sc-memory/src/scs/scs_types.cpp. The warnings that it logs on
-- deprecated designations are left out.
pub mod RoundTrip
pub mod Constancy
use sc_memory_knowledge_sync.Base.{
  ℕ, Bool, true, false, not, ◌||◌, [], ◌∷◌, Str, codes, Option, none, some, find_type, find_name,
  contains, str_eq, ◌==◌, if◌then◌else◌,
}
use sc_memory_knowledge_sync.ScType.Elements.{unknown}
use sc_memory_knowledge_sync.Scs.Tables.{
  connectors_to_types, deprecated_connectors_to_types, deprecated_reverse_connectors_to_types,
  types_to_connectors, types_to_reverse_connectors, keynodes_to_types, deprecated_keynodes_to_types,
  types_to_keynodes, reversed_connectors, deprecated_reversed_connectors,
}

-- What a search gives, and the empty text where it ends.
abbrev pub or_empty : Option Str → Str
or_empty none = []
or_empty (some s) = s

unfoldable pub get_direct_scs_connector : ℕ → Str
unfolding find_type
get_direct_scs_connector t = or_empty (find_type t types_to_connectors)

unfoldable pub get_reverse_scs_connector : ℕ → Str
unfolding find_type
get_reverse_scs_connector t = or_empty (find_type t types_to_reverse_connectors)

unfoldable pub get_scs_element_keynode : ℕ → Str
unfolding find_type
get_scs_element_keynode t = or_empty (find_type t types_to_keynodes)

unfoldable pub get_connector_type : Str → ℕ
unfolding find_name str_eq
get_connector_type alias = elim (find_name alias connectors_to_types) [
  | some t ↦ t
  | none ↦ elim (find_name alias deprecated_connectors_to_types) [
    | some t ↦ t
    | none ↦ elim (find_name alias deprecated_reverse_connectors_to_types) [
      | some t ↦ t
      | none ↦ unknown
    ]
  ]
]

unfoldable pub get_element_type : Str → ℕ
unfolding find_name str_eq
get_element_type alias = elim (find_name alias keynodes_to_types) [
  | some t ↦ t
  | none ↦ elim (find_name alias deprecated_keynodes_to_types) [ some t ↦ t | none ↦ unknown ]
]

unfoldable pub is_connector_reversed : Str → Bool
unfolding contains str_eq
is_connector_reversed alias =
    contains alias reversed_connectors || contains alias deprecated_reversed_connectors

-- The symbol at which the loop of `IsConst` stops: the first that is no dot, or else the last.
unfoldable pub symbol_after_dots : ℕ → Str → ℕ
symbol_after_dots c [] = c
symbol_after_dots c (d ∷ rest) =
    let next = symbol_after_dots d rest in if c == b'.' then next else c

unfoldable pub is_const : Str → Bool
unfolding symbol_after_dots
is_const [] = true
is_const (c ∷ rest) = not (symbol_after_dots c rest == b'_')

unfoldable pub is_connector_attr_const : Str → Bool
unfolding str_eq
is_connector_attr_const attr = str_eq attr (codes ":")

abbrev is_found : Option ℕ → Bool
is_found none = false
is_found (some _) = true

unfoldable pub is_element_type : Str → Bool
unfolding find_name str_eq
is_element_type alias =
    is_found (find_name alias keynodes_to_types)
    || is_found (find_name alias deprecated_keynodes_to_types)

unfoldable pub is_unnamed : Str → Bool
unfolding str_eq
is_unnamed alias = str_eq alias (codes "...") || str_eq alias (codes "_...")
