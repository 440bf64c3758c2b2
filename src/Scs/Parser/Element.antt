-- ===== src/Scs/Parser/Element.antt =====
-- `ParsedElement`, `ElementHandle` and `ParsedTriple` of sc-memory/sc-memory/src/scs/scs_parser.cpp and
-- sc-memory/sc-memory/include/sc-memory/scs/scs_parser.hpp.
use sc_memory_knowledge_sync.ScType.Methods as ScType
use sc_memory_knowledge_sync.Scs.TypeResolver
use sc_memory_knowledge_sync.Base.{
  [], ◌&&◌, ◌-◌, ltb, is_empty, ◌==◌, ◌^◌, true, false, not, ◌∷◌, Bool, ℕ, Str, if◌then◌else◌,
}
use sc_memory_knowledge_sync.ScType.Elements.{var_node, const_node}

pub data Visibility : Type 0 where
  local global system : Visibility

pub record ParsedElement : Type 0 where
  pub idtf : Str
  pub type : ℕ
  pub visibility : Visibility
  pub is_reversed : Bool
  pub value : Str
  pub is_url : Bool
  pub is_element_type : Bool

-- `ResolveVisibility`: two leading dots, one, or none.
unfoldable pub resolve_visibility : Str → Visibility
resolve_visibility [] = system
resolve_visibility (c ∷ []) = if c == b'.' then global else system
resolve_visibility (c ∷ d ∷ _) = if c == b'.' then (if d == b'.' then local else global) else system

-- The constructor of `ParsedElement`.
unfoldable pub parsed_element : Str → ℕ → Bool → Str → Bool → ParsedElement
unfolding resolve_visibility
parsed_element idtf type is_reversed value is_url = record {
  idtf = idtf;
  type = type;
  visibility =
      if not (is_empty value)
      then local
      else if ScType.is_connector type
      then local
      else resolve_visibility idtf;
  is_reversed = is_reversed;
  value = value;
  is_url = is_url;
  is_element_type = TypeResolver.is_element_type idtf;
}

unfoldable pub get_type : ParsedElement → ℕ
get_type e =
    if not (ScType.is_unknown e.type)
    then e.type
    else if TypeResolver.is_const e.idtf
    then const_node
    else var_node

pub record ElementHandle : Type 0 where
  pub id : ℕ
  pub visibility : Visibility
  pub is_element_type : Bool

abbrev pub invalid_id : ℕ
invalid_id = 2 ^ 32 - 1

-- `ElementHandle(id)` and `ElementHandle()`.
abbrev pub handle_of_id : ℕ → ElementHandle
handle_of_id id = record { id = id; visibility = global; is_element_type = false }

abbrev pub invalid_handle : ElementHandle
invalid_handle = handle_of_id invalid_id

unfoldable pub is_valid : ElementHandle → Bool
is_valid h = not (h.id == invalid_id)

unfoldable pub is_local : ElementHandle → Bool
is_local h = elim h.visibility [ local ↦ true | global ↦ false | system ↦ false ]

-- The number that the enumeration gives a visibility.
abbrev pub visibility_rank : Visibility → ℕ
visibility_rank local = 0
visibility_rank global = 1
visibility_rank system = 2

unfoldable pub eq_handle : ElementHandle → ElementHandle → Bool
eq_handle a b = a.id == b.id && visibility_rank a.visibility == visibility_rank b.visibility

unfoldable pub lt_handle : ElementHandle → ElementHandle → Bool
lt_handle a b =
    if a.id == b.id
    then ltb (visibility_rank a.visibility) (visibility_rank b.visibility)
    else ltb a.id b.id

pub record ParsedTriple : Type 0 where
  pub source : ElementHandle
  pub connector : ElementHandle
  pub target : ElementHandle
