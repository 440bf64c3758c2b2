-- ===== src/Scs/Parser/Generation.antt =====
-- `ForEachTripleForGeneration`: what the parser hands to the generator of sc-elements.
pub mod Calls
use sc_memory_knowledge_sync.Base.{List, Option, none, some, [], ◌∷◌, if◌then◌else◌}
use sc_memory_knowledge_sync.Scs.Parser.Element.{ParsedTriple, ParsedElement}
use sc_memory_knowledge_sync.Scs.Parser.State.{
  is_element_type_outgoing_base_arc, Parser, find_element,
}

abbrev pub Call : Type 0
Call = ParsedElement × ParsedElement × ParsedElement

-- The three elements of a triple; `none` is the exception of `GetParsedElement`.
unfoldable pub triple_elements : ParsedTriple → Parser → Option Call
unfolding find_element
triple_elements t p = elim (find_element t.source p) [
  | none ↦ none
  | some source ↦ elim (find_element t.connector p) [
    | none ↦ none
    | some connector ↦ elim (find_element t.target p) [
      | none ↦ none
      | some target ↦ some (source, connector, target)
    ]
  ]
]

abbrev pub cons_call : Parser → Call → Option (List Call) → Option (List Call)
cons_call p call none = none
cons_call p (source, connector, target) (some rest) =
    if is_element_type_outgoing_base_arc connector p
    then some rest
    else some ((source, connector, target) ∷ rest)

abbrev pub then_call : Parser → Option Call → Option (List Call) → Option (List Call)
then_call p none rest = none
then_call p (some call) rest = cons_call p call rest

-- The loop: the calls of the callback in order, or `none` if an element is not found.
unfoldable pub calls_from : List ParsedTriple → Parser → Option (List Call)
unfolding triple_elements is_element_type_outgoing_base_arc
calls_from [] p = some []
calls_from (t ∷ rest) p = then_call p (triple_elements t p) (calls_from rest p)

unfoldable pub for_each_triple_for_generation : Parser → Option (List Call)
unfolding calls_from
for_each_triple_for_generation p = calls_from p.parsed_triples p
