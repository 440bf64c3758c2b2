-- ===== src/Scs/Parser/Contour.antt =====
-- sc.s-contours: `ProcessContourBegin` and `ProcessContourEnd`.
pub mod Members
pub mod Ordered
use sc_memory_knowledge_sync.Scs.Parser.State.{
  modify, contour_of_element_type, throw, returns, total, write_element, undefined, pure,
  get_parsed_element_ref, get_parsed_element, is_element_type_outgoing_base_arc, ◌>>=◌, ◌>>◌,
  Parser, Action,
}
use sc_memory_knowledge_sync.Base.{
  ◌^◌, ◌%◌, codes, ◌||◌, ◌==◌, ◌+◌, Bool, Str, drop, str_eq, List, ℕ, length, [], ◌∷◌,
  if◌then◌else◌, true, false,
}
use sc_memory_knowledge_sync.Scs.Parser.Element.{
  ParsedTriple, ParsedElement, ElementHandle, lt_handle,
}
use sc_memory_knowledge_sync.Scs.Parser.Append.{process_connector}
use sc_memory_knowledge_sync.Scs.Parser.Triple.{process_triple}
use sc_memory_knowledge_sync.ScType.Elements.{const_node_structure}

unfoldable pub process_contour_begin : Parser → Parser
process_contour_begin p = record p {
  contour_elements_stack =
      (length p.parsed_elements, length p.parsed_elements_local) ∷ p.contour_elements_stack;
  contour_triples_stack = length p.parsed_triples ∷ p.contour_triples_stack;
}

-- `newElements.insert` for the ordered set: an element that is equal to a member changes nothing.
unfoldable pub insert_handle : ElementHandle → List ElementHandle → List ElementHandle
unfolding lt_handle
insert_handle h [] = h ∷ []
insert_handle h (x ∷ xs) =
    let rest = insert_handle h xs in
    if lt_handle h x then h ∷ x ∷ xs else if lt_handle x h then x ∷ rest else x ∷ xs

-- The handles of the elements that stand at `i` and after.
unfoldable pub insert_elements : ℕ → List ParsedElement → List ElementHandle → List ElementHandle
unfolding insert_handle
insert_elements i [] set = set
insert_elements i (e ∷ es) set = insert_elements (i + 1) es (
    insert_handle
      (record { id = i % 2 ^ 32; visibility = e.visibility; is_element_type = e.is_element_type })
      set)

unfoldable pub insert_triples : List ParsedTriple → List ElementHandle → List ElementHandle
unfolding insert_handle
insert_triples [] set = set
insert_triples (t ∷ ts) set =
    insert_triples ts
      (insert_handle t.target (insert_handle t.connector (insert_handle t.source set)))

-- All that stands in the parser since the contour was begun.
unfoldable pub new_elements : ℕ → ℕ → ℕ → Parser → List ElementHandle
unfolding insert_elements insert_triples
new_elements first first_local first_triple p =
    insert_triples (drop first_triple p.parsed_triples) (
      insert_elements first_local (drop first_local p.parsed_elements_local)
        (insert_elements first (drop first p.parsed_elements) []))

-- `equal_range`: the entries of a key, in the order of insertion. What the loop over it inserts into
-- the multimap meanwhile carries the identifier of a type that is noted at once, so the loop would
-- pass it over.
unfoldable pub equal_range : Str → List (Str × ElementHandle) → List ElementHandle
unfolding str_eq
equal_range k [] = []
equal_range k ((j, h) ∷ m) = let rest = equal_range k m in if str_eq j k then h ∷ rest else rest

abbrev pub has_id : ℕ → List ℕ → Bool
has_id i [] = false
has_id i (j ∷ js) = j == i || has_id i js

-- A base sc-arc from the contour.
unfoldable pub add_to_contour : ElementHandle → ElementHandle → Action (Unit {0})
unfolding process_connector process_triple
add_to_contour contour handle = do
  connector ← total (process_connector (codes "->"))
  process_triple contour connector handle

-- The inner loop: the types of sc-elements that take part in other sc-arcs than base ones. It gives
-- the identifiers of those that were added.
unfoldable pub add_element_types : ElementHandle → List ElementHandle → List ℕ → Action (List ℕ)
unfolding add_to_contour
add_element_types contour [] added = pure added
add_element_types contour (h ∷ hs) added = elim (has_id h.id added) [
  | true ↦ add_element_types contour hs added
  | false ↦ do add_to_contour contour h; add_element_types contour hs (h.id ∷ added)
]

unfoldable pub add_element : ElementHandle → ElementHandle → ParsedElement → Action (Unit {0})
unfolding add_to_contour is_element_type_outgoing_base_arc
add_element contour handle e p =
    if handle.is_element_type || is_element_type_outgoing_base_arc e p
    then returns tt p
    else add_to_contour contour handle p

-- The outer loop, over the new elements.
unfoldable pub add_elements : ElementHandle → List ElementHandle → List ℕ → Action (Unit {0})
unfolding get_parsed_element equal_range add_element_types add_element
add_elements contour [] added = pure tt
add_elements contour (h ∷ hs) added = do
  e ← get_parsed_element h
  added' ← λ p.
      add_element_types contour (equal_range e.idtf p.element_type_not_outgoing_base_arcs) added p
  add_element contour h e
  add_elements contour hs added'

-- `top` and `pop` of the two stacks.
unfoldable pub pop_contour : Action (ℕ × ℕ × ℕ)
pop_contour p = elim p.contour_elements_stack [
  | [] ↦ undefined
  | (first, first_local) ∷ rest ↦ elim p.contour_triples_stack [
    | [] ↦ undefined
    | first_triple ∷ rest_triples ↦
        returns (first, first_local, first_triple)
          (record p { contour_elements_stack = rest; contour_triples_stack = rest_triples })
  ]
]

unfoldable pub close_contour : ElementHandle → ℕ × ℕ × ℕ → Action (Unit {0})
unfolding new_elements add_elements
close_contour contour (first, first_local, first_triple) p =
    add_elements contour (new_elements first first_local first_triple p) [] p

unfoldable pub process_contour_end : ElementHandle → Action (Unit {0})
unfolding get_parsed_element_ref write_element pop_contour close_contour
process_contour_end contour_handle = do
  contour ← get_parsed_element_ref contour_handle
  if contour.is_element_type then throw contour_of_element_type else do
    modify (write_element contour_handle (record contour { type = const_node_structure }))
    marks ← pop_contour
    close_contour contour_handle marks
