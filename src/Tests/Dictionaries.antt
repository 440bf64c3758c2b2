-- ===== src/Tests/Dictionaries.antt =====
-- The dictionary on concrete strings.
use sc_memory_knowledge_sync.Container.Dictionary.{
  offset_of, child, node, no_child, Node, append, get_by_key, has, new_node, uchar_number,
}
use sc_memory_knowledge_sync.Container.Dictionary.Trees.{is_tree, IsTree}
use sc_memory_knowledge_sync.Container.Dictionary.Entries.{
  get_by_key-append_ends, uchar_number-injective, get_by_key-append_all, append_all, latest,
  are_bytes,
}
use sc_memory_knowledge_sync.Base.{
  if◌then◌else◌, str_eq, arith, true, none, some, refl, ◌≡◌, [], codes, ◌∷◌, ℕ, List, Str,
}

abbrev concept : Str
concept = codes "concept"

-- Strings with a common prefix, of which the first is written again.
abbrev entries : List (Str × ℕ)
entries = (concept, 1) ∷ (codes "conclusion", 2) ∷ (codes "con", 3) ∷ (concept, 4) ∷ []

get_by_key-append_all_example :
    (root : Node ℕ) × ((append_all uchar_number entries new_node ≡ some root)
      × (get_by_key uchar_number concept root ≡ latest concept entries none))
unfolding are_bytes
get_by_key-append_all_example =
    get_by_key-append_all uchar_number uchar_number-injective entries concept refl

abbrev leaf_of : Node ℕ
leaf_of = node [] none (child (uchar_number 99) (node concept (some 1) no_child) no_child)

get_by_key-append_ends_example :
    (root : Node ℕ) × ((append uchar_number 4 (codes "con") 3 leaf_of ≡ some root)
      × (offset_of root ≡ [])
      × IsTree uchar_number root
      × ((t : Str)
          → get_by_key uchar_number t root
            ≡ (if str_eq t (codes "con") then some 3 else get_by_key uchar_number t leaf_of)))
unfolding is_tree
get_by_key-append_ends_example =
    get_by_key-append_ends uchar_number uchar_number-injective 4 (codes "con") 3 leaf_of
      (omega arith) refl refl refl

-- The node between two strings is found as if their common prefix had been put in.
abbrev conclusions : Node ℕ
conclusions = node [] none (
    child (uchar_number 99)
      (node (codes "conc") none (
        child (uchar_number 101) (node (codes "ept") (some 1) no_child)
          (child (uchar_number 108) (node (codes "lusion") (some 2) no_child) no_child)))
      no_child)

append_all-conclusions :
    append_all uchar_number ((concept, 1) ∷ (codes "conclusion", 2) ∷ []) new_node
    ≡ some conclusions
unfolding append_all append
append_all-conclusions = refl

has-conclusions :
    (has uchar_number (codes "conc") conclusions ≡ true)
    × (get_by_key uchar_number (codes "conc") conclusions ≡ none)
unfolding has get_by_key str_eq
has-conclusions = (refl, refl)
