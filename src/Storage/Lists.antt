-- ===== src/Storage/Lists.antt =====
-- The lists of the sc-connectors of an element, as the links in the storage make them.
use sc_memory_knowledge_sync.Storage.State.{is_element, Storage}
use sc_memory_knowledge_sync.ScAddr.{is_equal_addr, is_empty_addr, ScAddr}
use sc_memory_knowledge_sync.Base.{[], false, true, ◌≡◌, ◌∷◌, List}
use sc_memory_knowledge_sync.Storage.Iterator3.{next_in, next_out, begin_from, end_from}

-- The sc-connectors that follow one another from an address on, in the outgoing list of an element:
-- all are elements, and so are the elements at their other sides.
abbrev pub OutChain : Storage → ScAddr → List ScAddr → ScAddr → Type 0
OutChain st b [] a = is_empty_addr a ≡ true
OutChain st b (c ∷ cs) a =
    (a ≡ c)
    × (is_empty_addr c ≡ false)
    × (is_element c st ≡ true)
    × (is_element (end_from b (st.elements c)) st ≡ true)
    × OutChain st b cs (next_out b (st.elements c))

abbrev pub OutList : Storage → ScAddr → List ScAddr → Type 0
OutList st b cs = OutChain st b cs (st.elements b).first_out_arc

-- The same for the incoming list.
abbrev pub InChain : Storage → ScAddr → List ScAddr → ScAddr → Type 0
InChain st e [] a = is_empty_addr a ≡ true
InChain st e (c ∷ cs) a =
    (a ≡ c)
    × (is_empty_addr c ≡ false)
    × (is_element c st ≡ true)
    × (is_element (begin_from e (st.elements c)) st ≡ true)
    × InChain st e cs (next_in false e (st.elements c))

abbrev pub InList : Storage → ScAddr → List ScAddr → Type 0
InList st e cs = InChain st e cs (st.elements e).first_in_arc

-- An address that is none of a list.
abbrev pub IsApart : ScAddr → List ScAddr → Type 0
IsApart c [] = Unit
IsApart c (d ∷ ds) = (is_equal_addr d c ≡ false) × IsApart c ds
