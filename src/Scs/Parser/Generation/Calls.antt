-- ===== src/Scs/Parser/Generation/Calls.antt =====
-- Which triples of a consistent parser are handed to the generator.
-- The calls for a list of triples: none for a triple whose sc-connector is a base arc from a type of
-- sc-elements, and the three elements for every other one.
use sc_memory_knowledge_sync.Scs.Parser.State.{
  find_element, is_element_type_outgoing_base_arc, Parser,
}
use sc_memory_knowledge_sync.Scs.Parser.Generation.{
  Call, triple_elements, for_each_triple_for_generation, calls_from,
}
use sc_memory_knowledge_sync.Base.{
  refl, inr, false, inl, true, Bool-cases, contains, ◌∷◌, some, ◌≡◌, [], List,
}
use sc_memory_knowledge_sync.Scs.Parser.Invariant.{IsKnownTriple, All, IsConsistent}
use sc_memory_knowledge_sync.Scs.Parser.Element.{ParsedElement, ParsedTriple}

pub data Generates (p : Parser) : List ParsedTriple → List Call → Type 0 where
  done : Generates p [] []
  skips :
      (t : ParsedTriple) (connector : ParsedElement) (ts : List ParsedTriple) (calls : List Call)
      → find_element t.connector p ≡ some connector
      → contains connector.idtf p.element_type_outgoing_base_arcs ≡ true
      → Generates p ts calls
      → Generates p (t ∷ ts) calls
  gives :
      (t : ParsedTriple) (source connector target : ParsedElement) (ts : List ParsedTriple)
      (calls : List Call)
      → find_element t.source p ≡ some source
      → find_element t.connector p ≡ some connector
      → find_element t.target p ≡ some target
      → contains connector.idtf p.element_type_outgoing_base_arcs ≡ false
      → Generates p ts calls
      → Generates p (t ∷ ts) ((source, connector, target) ∷ calls)

calls_from-Generates :
    (p : Parser) (ts : List ParsedTriple)
    → All (IsKnownTriple p) ts
    → (calls : List Call) × (calls_from ts p ≡ some calls) × Generates p ts calls
unfolding calls_from triple_elements is_element_type_outgoing_base_arc
calls_from-Generates p [] k = ([], refl, done)
calls_from-Generates p (t ∷ ts) (((source, s), (connector, c), (target, g)), k) =
    let (calls, e, rest) = calls_from-Generates p ts k in
    elim (Bool-cases (contains connector.idtf p.element_type_outgoing_base_arcs)) [
      | inl base ↦ (
        calls,
        rw (calls_from, triple_elements, s, c, g, e, is_element_type_outgoing_base_arc, base) refl,
        skips t connector ts calls c base rest,
      )
      | inr other ↦ (
        (source, connector, target) ∷ calls,
        rw (calls_from, triple_elements, s, c, g, e, is_element_type_outgoing_base_arc, other) refl,
        gives t source connector target ts calls s c g other rest,
      )
    ]

-- On a consistent parser `ForEachTripleForGeneration` finds all elements and calls its argument, in
-- the order of the triples, with the elements of each triple whose sc-connector is not a base arc from
-- a type of sc-elements, and with no others.
pub for_each_triple_for_generation-Generates :
    (p : Parser)
    → IsConsistent p
    → (calls : List Call) × (for_each_triple_for_generation p ≡ some calls)
      × Generates p p.parsed_triples calls
unfolding for_each_triple_for_generation
for_each_triple_for_generation-Generates p c = calls_from-Generates p p.parsed_triples c.triples
