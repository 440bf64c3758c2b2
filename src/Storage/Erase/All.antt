-- ===== src/Storage/Erase/All.antt =====
-- Which elements there are after others are erased.
use sc_memory_knowledge_sync.Storage.Element.{exists, sc_state_request_erasure, Element, has_state}
use sc_memory_knowledge_sync.ScAddr.{is_equal_addr, ScAddr}
use sc_memory_knowledge_sync.Storage.Generate.{modify_element}
use sc_memory_knowledge_sync.Storage.Erase.{
  disconnect, contains_addr, with_state, erase_all, erase_element, erase_found,
}
use sc_memory_knowledge_sync.Storage.State.{
  get_element_by_addr-none, get_element_by_addr-found, is_element, set_element, Storage,
}
use sc_memory_knowledge_sync.Base.{
  bit_and, [], ◌∷◌, bit_or, refl, inr, ◌∙◌, sym, true, some, ◌==◌, ◌||◌, false, ap, inl, not, ◌≡◌,
  List, ◌&&◌, Bool-cases, Bool,
}
use sc_memory_knowledge_sync.Storage.Free.{
  free_if_there-elements, and_true, free_if_there-is_element, and_false, is_element-of,
}
use sc_memory_knowledge_sync.Storage.Generate.Fields.{
  addr_eq_sym, addr_eq, modify_element-at, modify_element-keeps,
}
use sc_memory_knowledge_sync.Base.Bits.{bit_and-or, bit_and_comm}
use sc_memory_knowledge_sync.ScType.Flags.{
  sc_type_connector_mask, sc_type_has_subtype_in_mask, sc_type_node_link, sc_type_has_subtype,
}
use sc_memory_knowledge_sync.Storage.Erase.Elements.{disconnect-part}
use sc_memory_knowledge_sync.Base.Words.{bit_or_zero}

exists-requested : (e : Element) → exists (with_state sc_state_request_erasure e) ≡ exists e
unfolding has_state
exists-requested e =
    ap (λ n. n == 2)
      (bit_and_comm (bit_or e.states 1) 2
        ∙ bit_and-or 2 e.states 1
        ∙ bit_or_zero (bit_and 2 e.states)
        ∙ bit_and_comm 2 e.states)

request : ScAddr → Storage → Storage
request a st = modify_element a (with_state sc_state_request_erasure) st

request-is_element : (a x : ScAddr) (st : Storage) → is_element x (request a st) ≡ is_element x st
unfolding request modify_element set_element
request-is_element a x st =
    is_element-of st (request a st) x refl refl
      (modify_element-keeps exists a st x (with_state sc_state_request_erasure) exists-requested)

-- An element whose erasure was not requested is erased, and no other.
erase_found-is_element :
    (a x : ScAddr) (st : Storage)
    → has_state (st.elements a) sc_state_request_erasure ≡ false
    → is_element x (erase_found a (some (st.elements a)) st)
      ≡ (is_element x st && not (is_equal_addr x a))
unfolding erase_found request
erase_found-is_element a x st h =
    let e = st.elements a in
    let left = λ (s : Storage) (k : is_element x s ≡ is_element x st).
      free_if_there-is_element a x s ∙ ap (λ b. b && not (is_equal_addr x a)) k in
    let plain = left (request a st) (request-is_element a x st) in
    rw (erase_found, h)
      (elim (Bool-cases (sc_type_has_subtype e.type sc_type_node_link)) [
        | inl l ↦ rw l plain
        | inr l ↦
            rw l (elim (Bool-cases (sc_type_has_subtype_in_mask e.type sc_type_connector_mask)) [
              | inl m ↦ rw m (
                  left (disconnect a e.type e.arc (request a st)) (
                    ap (λ p. p.0) (disconnect-part a e.type e.arc (request a st) x)
                    ∙ request-is_element a x st))
              | inr m ↦ rw m plain
            ])
      ])

request-states :
    (a x : ScAddr) (st : Storage)
    → is_equal_addr x a ≡ false
    → ((request a st).elements x).states ≡ (st.elements x).states
unfolding request
request-states a x st n =
    modify_element-at (λ e. e.states) a st x (with_state sc_state_request_erasure) ∙ rw n refl

-- The other elements keep their states.
erase_found-states :
    (a x : ScAddr) (e : Element) (st : Storage)
    → is_equal_addr x a ≡ false
    → is_element x st ≡ true
    → ((erase_found a (some e) st).elements x).states ≡ (st.elements x).states
unfolding erase_found request
erase_found-states a x e st n k =
    let r = request-is_element a x st ∙ k in
    let plain =
      ap (λ y. y.states) (free_if_there-elements a x (request a st) n r)
      ∙ request-states a x st n in
    let d = disconnect-part a e.type e.arc (request a st) x in
    elim (Bool-cases (has_state e sc_state_request_erasure)) [
      | inl h ↦ rw (erase_found, h) refl
      | inr h ↦
          rw (erase_found, h)
            (elim (Bool-cases (sc_type_has_subtype e.type sc_type_node_link)) [
              | inl l ↦ rw l plain
              | inr l ↦
                  rw l
                    (elim (Bool-cases (sc_type_has_subtype_in_mask e.type sc_type_connector_mask)) [
                      | inl m ↦ rw m (
                          ap (λ y. y.states)
                            (free_if_there-elements a x (disconnect a e.type e.arc (request a st)) n
                              (ap (λ p. p.0) d ∙ r))
                          ∙ ap (λ p. p.1) d
                          ∙ request-states a x st n)
                      | inr m ↦ rw m plain
                    ])
            ])
    ]

-- The erasure of the element at an address was not requested; there may be none.
abbrev is_unrequested : ScAddr → Storage → Bool
is_unrequested a st = not (is_element a st && has_state (st.elements a) sc_state_request_erasure)

abbrev pub IsUnrequested : List ScAddr → Storage → Type 0
IsUnrequested [] st = Unit
IsUnrequested (a ∷ list) st = (is_unrequested a st ≡ true) × IsUnrequested list st

erase_element-is_element :
    (a x : ScAddr) (st : Storage)
    → is_unrequested a st ≡ true
    → is_element x (erase_element a st) ≡ (is_element x st && not (is_equal_addr x a))
unfolding erase_element
erase_element-is_element a x st u = elim (Bool-cases (is_element a st)) [
  | inl k ↦
      rw (erase_element, get_element_by_addr-found a st k)
        (erase_found-is_element a x st (
          not_true _
            (ap (λ b. not (b && has_state (st.elements a) sc_state_request_erasure)) (sym k) ∙ u)))
  | inr k ↦
      rw (erase_element, get_element_by_addr-none a st k)
        (elim (Bool-cases (is_equal_addr x a)) [
          | inl e ↦
              rw e
                (ap (λ y. is_element y st) (addr_eq x a e) ∙ k ∙ sym (and_false (is_element x st)))
          | inr e ↦ rw e (sym (and_true (is_element x st)))
        ])
]
  where
    not_true : (b : Bool) → not b ≡ true → b ≡ false
    not_true false h = refl
    not_true true h = cc

erase_element-states :
    (a x : ScAddr) (st : Storage)
    → is_equal_addr x a ≡ false
    → is_element x st ≡ true
    → ((erase_element a st).elements x).states ≡ (st.elements x).states
unfolding erase_element
erase_element-states a x st n k = elim (Bool-cases (is_element a st)) [
  | inl h ↦
      rw (erase_element, get_element_by_addr-found a st h)
        (erase_found-states a x (st.elements a) st n k)
  | inr h ↦ rw (erase_element, get_element_by_addr-none a st h) refl
]

-- The erasure of one element requests that of no other.
erase_element-is_unrequested :
    (a x : ScAddr) (st : Storage)
    → is_unrequested a st ≡ true
    → is_unrequested x st ≡ true
    → is_unrequested x (erase_element a st) ≡ true
unfolding has_state
erase_element-is_unrequested a x st u v =
    let there = erase_element-is_element a x st u in
    elim (Bool-cases (is_equal_addr x a)) [
      | inl e ↦
          rw (there, e)
            (ap
              (λ b. not (b && has_state ((erase_element a st).elements x) sc_state_request_erasure))
              (and_false (is_element x st)))
      | inr n ↦ elim (Bool-cases (is_element x st)) [
        | inl k ↦ rw (there, n, erase_element-states a x st n k, and_true (is_element x st)) v
        | inr k ↦ rw (there, k) refl
      ]
    ]

erase_element-IsUnrequested :
    (a : ScAddr) (list : List ScAddr) (st : Storage)
    → is_unrequested a st ≡ true
    → IsUnrequested list st
    → IsUnrequested list (erase_element a st)
erase_element-IsUnrequested a [] st u v = tt
erase_element-IsUnrequested a (x ∷ list) st u v =
    (erase_element-is_unrequested a x st u v.0, erase_element-IsUnrequested a list st u v.1)

and_not_or : (b c d : Bool) → ((b && not c) && not d) ≡ (b && not (c || d))
and_not_or true true d = refl
and_not_or true false d = refl
and_not_or false c d = refl

-- Erasing a list of elements, one after another and none of them with a request for its erasure
-- before, erases those elements, also where one is in the list twice, and no others; at no address
-- there is a new element.
pub erase_all-is_element :
    (list : List ScAddr) (x : ScAddr) (st : Storage)
    → IsUnrequested list st
    → is_element x (erase_all list st) ≡ (is_element x st && not (contains_addr x list))
unfolding erase_all
erase_all-is_element [] x st u = sym (and_true (is_element x st))
erase_all-is_element (a ∷ list) x st u =
    erase_all-is_element list x (erase_element a st) (erase_element-IsUnrequested a list st u.0 u.1)
    ∙ rw (erase_element-is_element a x st u.0, addr_eq_sym a x)
        (and_not_or (is_element x st) (is_equal_addr x a) (contains_addr x list))
