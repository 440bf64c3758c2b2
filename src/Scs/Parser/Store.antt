-- ===== src/Scs/Parser/Store.antt =====
-- The two containers of the parser as a store of elements by their handles.
use sc_memory_knowledge_sync.Scs.Parser.Element.{local, global, system}
use sc_memory_knowledge_sync.Base.{
  none, ==_iff, ◌∙◌, ap, &&-true, ◌==◌, set, ◌&&◌, ℕ, false, inr, get_elem?-append, inl,
  get_elem?-append_end, ◌^◌, arith, Bool-cases, ◌++◌, get_elem?, true, List, ◌<◌, ◌≡◌, Bool, length,
  some, [], ◌∷◌, if◌then◌else◌, suc, zero, refl,
}
use native.Mathlib.Nat.{mod-eq_of_lt}
use sc_memory_knowledge_sync.Scs.Parser.State.{
  write_element, set_container, find_element, get_container_by_element_visibility, Parser,
}
use sc_memory_knowledge_sync.Scs.Parser.Element.{ElementHandle, ParsedElement, Visibility}
use sc_memory_knowledge_sync.Scs.Parser.Append.{append_new_element}

-- Every container holds fewer elements than there are identifiers.
abbrev pub HasRoom : Parser → Type 0
HasRoom p = (length p.parsed_elements < 2 ^ 32) × (length p.parsed_elements_local < 2 ^ 32)

pub same_container : Visibility → Visibility → Bool
same_container v w = elim v [
  | local ↦ elim w [ local ↦ true | global ↦ false | system ↦ false ]
  | global ↦ elim w [ local ↦ false | global ↦ true | system ↦ true ]
  | system ↦ elim w [ local ↦ false | global ↦ true | system ↦ true ]
]

container-set :
    (v w : Visibility) (es : List ParsedElement) (p : Parser)
    → get_container_by_element_visibility v (set_container w es p)
      ≡ (if same_container v w then es else get_container_by_element_visibility v p)
unfolding get_container_by_element_visibility set_container same_container
container-set v w es p = ground arith

container-same :
    (v w : Visibility) (p : Parser)
    → same_container v w ≡ true
    → get_container_by_element_visibility v p ≡ get_container_by_element_visibility w p
unfolding get_container_by_element_visibility same_container
container-same v w p h = ground arith

room :
    (v : Visibility) (p : Parser)
    → HasRoom p
    → length (get_container_by_element_visibility v p) < 2 ^ 32
unfolding get_container_by_element_visibility
room v p h = ground arith

find-container :
    (h : ElementHandle) (p : Parser)
    → find_element h p ≡ get_elem? (get_container_by_element_visibility h.visibility p) h.id
unfolding find_element
find-container h p = refl

module _ (e : ParsedElement) (p : Parser) where
  append-container :
      (v : Visibility)
      → get_container_by_element_visibility v (append_new_element e p).1 ≡ (
          if same_container v e.visibility
          then get_container_by_element_visibility e.visibility p ++ e ∷ []
          else get_container_by_element_visibility v p)
  unfolding append_new_element get_container_by_element_visibility set_container same_container
  append-container v = ground arith

  -- A new element takes no other element's place.
  pub find_element-append :
      (h : ElementHandle) (x : ParsedElement)
      → find_element h p ≡ some x
      → find_element h (append_new_element e p).1 ≡ some x
  unfolding find_element
  find_element-append h x found = elim (Bool-cases (same_container h.visibility e.visibility)) [
    | inl same ↦
        rw (append-container h.visibility, same)
          (get_elem?-append (get_container_by_element_visibility e.visibility p) (e ∷ []) h.id
            (rw (← container-same h.visibility e.visibility p same) found))
    | inr other ↦ rw (append-container h.visibility, other) found
  ]

  append-handle :
      HasRoom p
      → (append_new_element e p).0 ≡ record {
        id = length (get_container_by_element_visibility e.visibility p);
        visibility = e.visibility;
        is_element_type = e.is_element_type;
      }
  unfolding append_new_element
  append-handle h = rw (mod-eq_of_lt (room e.visibility p h)) refl

  -- And is found by the handle that it is given.
  pub find_element-append_self :
      HasRoom p → find_element (append_new_element e p).0 (append_new_element e p).1 ≡ some e
  unfolding find_element same_container
  find_element-append_self h =
      rw (append-handle h, append-container e.visibility)
        (ground
          (arith, get_elem?-append_end (get_container_by_element_visibility e.visibility p) e))

get_elem?-end : (xs : List ParsedElement) → get_elem? xs (length xs) ≡ none
get_elem?-end [] = refl
get_elem?-end (x ∷ xs) = get_elem?-end xs

-- No element had the handle before.
pub find_element-before :
    (e : ParsedElement) (p : Parser) → HasRoom p → find_element (append_new_element e p).0 p ≡ none
unfolding find_element
find_element-before e p h =
    rw (append-handle e p h) (get_elem?-end (get_container_by_element_visibility e.visibility p))

get_elem?-set :
    (xs : List ParsedElement) (i j : ℕ) (v x : ParsedElement)
    → get_elem? xs j ≡ some x
    → get_elem? (set xs i v) j ≡ some (if j == i then v else x)
get_elem?-set [] i j v x h = cc
get_elem?-set (y ∷ xs) zero zero v x h = refl
get_elem?-set (y ∷ xs) zero (suc j) v x h = ground arith
get_elem?-set (y ∷ xs) (suc i) zero v x h = ground arith
get_elem?-set (y ∷ xs) (suc i) (suc j) v x h = ground (arith, get_elem?-set xs i j v x h)

-- Whether two handles name one place.
abbrev pub same_place : ElementHandle → ElementHandle → Bool
same_place h k = same_container h.visibility k.visibility && h.id == k.id

pub same_place-find :
    (h k : ElementHandle) (p : Parser) → same_place h k ≡ true → find_element h p ≡ find_element k p
unfolding find_element
same_place-find h k p e =
    let (same, ids) = &&-true e in
    ap (λ c. get_elem? c h.id) (container-same h.visibility k.visibility p same)
    ∙ ap (get_elem? (get_container_by_element_visibility k.visibility p)) ((==_iff h.id k.id).0 ids)

module _ (k : ElementHandle) (e : ParsedElement) (p : Parser) where
  write-container :
      (v : Visibility)
      → get_container_by_element_visibility v (write_element k e p) ≡ (
          if same_container v k.visibility
          then set (get_container_by_element_visibility k.visibility p) k.id e
          else get_container_by_element_visibility v p)
  unfolding write_element
  write-container v = container-set v k.visibility _ p

  -- A write changes what its handle names, and nothing else.
  pub find_element-write :
      (h : ElementHandle) (x : ParsedElement)
      → find_element h p ≡ some x
      → find_element h (write_element k e p) ≡ some (if same_place h k then e else x)
  unfolding find_element
  find_element-write h x found = elim (Bool-cases (same_container h.visibility k.visibility)) [
    | inr other ↦ rw (write-container h.visibility, other) found
    | inl same ↦
        rw (write-container h.visibility, same)
          (get_elem?-set (get_container_by_element_visibility k.visibility p) k.id h.id e x
            (rw (← container-same h.visibility k.visibility p same) found))
  ]
