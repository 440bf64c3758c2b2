-- ===== src/Scs/Parser/State.antt =====
-- The state of `scs::Parser` and what its operations come to, of
-- sc-memory/sc-memory/include/sc-memory/scs/scs_parser.hpp and
-- sc-memory/sc-memory/src/scs/scs_parser.cpp. A vector is a list, a stack is a list with its top
-- first, a set is a list of its members, a map and a multimap are lists of entries; the entries of a
-- multimap stand in the order of insertion.
use sc_memory_knowledge_sync.Base.{
  Str, contains, Bool, set, get_elem?, ℕ, Option, List, [], none, some,
}
use sc_memory_knowledge_sync.Scs.Parser.Element.{
  system, global, local, ParsedTriple, ParsedElement, ElementHandle, Visibility,
}

pub record Parser : Type 0 where
  pub parsed_elements : List ParsedElement
  pub parsed_elements_local : List ParsedElement
  pub contour_elements_stack : List (ℕ × ℕ)
  pub contour_triples_stack : List ℕ
  pub parsed_triples : List ParsedTriple
  pub idtf_to_parsed_element : List (Str × ElementHandle)
  pub alias_handles : List (Str × ElementHandle)
  pub element_type_outgoing_base_arcs : List Str
  pub element_type_not_outgoing_base_arcs : List (Str × ElementHandle)
  pub idtf_counter : ℕ

-- `Parser::Parser`.
abbrev pub empty_parser : Parser
empty_parser = record {
  parsed_elements = [];
  parsed_elements_local = [];
  contour_elements_stack = [];
  contour_triples_stack = [];
  parsed_triples = [];
  idtf_to_parsed_element = [];
  alias_handles = [];
  element_type_outgoing_base_arcs = [];
  element_type_not_outgoing_base_arcs = [];
  idtf_counter = 0;
}

-- The exceptions: the four parse errors, an element that is not there, and `std::out_of_range`.
pub data Error : Type 0 where
  cannot_extend_element_type cannot_extend_type base_arc_in_triple contour_of_element_type : Error
  item_not_found : Error
  out_of_range : Error

-- An operation returns, throws and leaves the parser as it is by then, or has no defined behaviour
-- (the top of an empty stack).
pub data Outcome (A : Type 0) : Type 0 where
  returns : A → Parser → Outcome A
  throws : Error → Parser → Outcome A
  undefined : Outcome A

abbrev pub Action : Type 0 → Type 0
Action A = Parser → Outcome A

abbrev pub pure : {A : Type 0} → A → Action A
pure a p = returns a p

abbrev pub throw : {A : Type 0} → Error → Action A
throw e p = throws e p

abbrev pub and_then : {A B : Type 0} → Outcome A → (A → Action B) → Outcome B
and_then (returns a p) f = f a p
and_then (throws e p) f = throws e p
and_then undefined f = undefined

infixl 5 ◌>>=◌ ◌>>◌
abbrev pub ◌>>=◌ : {A B : Type 0} → Action A → (A → Action B) → Action B
◌>>=◌ m f p = and_then (m p) f

abbrev pub ◌>>◌ : {B : Type 0} → Action (Unit {0}) → Action B → Action B
m >> k = m >>= λ _. k

-- An operation that always returns.
abbrev pub total : {A : Type 0} → (Parser → A × Parser) → Action A
total f p = let (a, p') = f p in returns a p'

abbrev pub modify : (Parser → Parser) → Action (Unit {0})
modify f p = returns tt (f p)

-- `GetContainerByElementVisibility`, and the parser with another such container.
unfoldable pub get_container_by_element_visibility : Visibility → Parser → List ParsedElement
get_container_by_element_visibility local p = p.parsed_elements_local
get_container_by_element_visibility global p = p.parsed_elements
get_container_by_element_visibility system p = p.parsed_elements

unfoldable pub set_container : Visibility → List ParsedElement → Parser → Parser
set_container local es p = record p { parsed_elements_local = es }
set_container global es p = record p { parsed_elements = es }
set_container system es p = record p { parsed_elements = es }

unfoldable pub find_element : ElementHandle → Parser → Option ParsedElement
unfolding get_container_by_element_visibility
find_element h p = get_elem? (get_container_by_element_visibility h.visibility p) h.id

abbrev pub or_not_found : Option ParsedElement → Action ParsedElement
or_not_found none p = throws item_not_found p
or_not_found (some e) p = returns e p

unfoldable pub get_parsed_element : ElementHandle → Action ParsedElement
unfolding find_element
get_parsed_element h p = or_not_found (find_element h p) p

-- `GetParsedElementRef`: the element as it is read, and a write through the reference.
unfoldable pub get_parsed_element_ref : ElementHandle → Action ParsedElement
unfolding find_element
get_parsed_element_ref h p = or_not_found (find_element h p) p

unfoldable pub write_element : ElementHandle → ParsedElement → Parser → Parser
unfolding get_container_by_element_visibility set_container
write_element h e p =
    set_container h.visibility (set (get_container_by_element_visibility h.visibility p) h.id e) p

unfoldable pub is_element_type_outgoing_base_arc : ParsedElement → Parser → Bool
is_element_type_outgoing_base_arc e p = contains e.idtf p.element_type_outgoing_base_arcs
