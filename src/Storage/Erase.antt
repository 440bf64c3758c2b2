-- ===== src/Storage/Erase.antt =====
-- The erasure of elements, `_sc_storage_element_erase` and `sc_storage_element_erase` of
-- sc-memory/sc-core/src/sc-store/sc_storage.c. The content of an erased sc-link is left to the file
-- memory.
pub mod Elements
pub mod All
use sc_memory_knowledge_sync.Storage.Generate.{modify_element}
use sc_memory_knowledge_sync.ScAddr.{is_empty_addr, is_equal_addr, ScAddr}
use sc_memory_knowledge_sync.Base.{
  zero, ◌||◌, ◌%◌, suc, some, [], ◌&&◌, ◌-◌, not, none, Option, ◌∷◌, false, bit_or, ◌^◌,
  if◌then◌else◌, ◌++◌, Bool, ◌+◌, List, ℕ,
}
use sc_memory_knowledge_sync.Storage.Element.{
  sc_state_is_erasable, sc_state_request_erasure, has_state, Element, ArcInfo,
}
use sc_memory_knowledge_sync.ScType.Flags.{
  sc_type_connector_mask, sc_type_node_link, sc_type_has_subtype_in_mask, sc_type_common_edge,
  sc_type_has_subtype,
}
use sc_memory_knowledge_sync.Storage.Allocate.{free_element}
use sc_memory_knowledge_sync.Storage.State.{is_element, Storage, get_element_by_addr}
use sc_memory_knowledge_sync.Storage.Result.{ok, stuck, error_addr_is_not_valid, fails, Run}

-- A change of an element that `sc_storage_get_element_by_addr` finds.
unfoldable pub modify_found : ScAddr → (Element → Element) → Storage → Storage
unfolding modify_element get_element_by_addr
modify_found a f st = if is_element a st then modify_element a f st else st

unfoldable pub modify_found_arc : ScAddr → (ArcInfo → ArcInfo) → Storage → Storage
unfolding modify_found
modify_found_arc a f st =
    if not (is_empty_addr a) then modify_found a (λ e. record e { arc = f e.arc }) st else st

abbrev decremented : ℕ → ℕ
decremented n = (n + 2 ^ 32 - 1) % 2 ^ 32

-- The sc-connector leaves the outgoing, or the incoming, list of an element.
abbrev pub leave_out : ScAddr → ScAddr → Element → Element
leave_out connector next e = record e {
  first_out_arc = if is_equal_addr connector e.first_out_arc then next else e.first_out_arc;
  outgoing_arcs_count = decremented e.outgoing_arcs_count;
}

abbrev pub leave_in : ScAddr → ScAddr → Element → Element
leave_in connector next e = record e {
  first_in_arc = if is_equal_addr connector e.first_in_arc then next else e.first_in_arc;
  incoming_arcs_count = decremented e.incoming_arcs_count;
}

abbrev pub leave_structure : ScAddr → ScAddr → Element → Element
leave_structure connector next e = record e {
  first_in_arc_from_structure =
      if is_equal_addr connector e.first_in_arc_from_structure
      then next
      else e.first_in_arc_from_structure;
}

-- The neighbours of a sc-connector in the three lists become neighbours.
unfoldable pub unlink_out : ArcInfo → Storage → Storage
unfolding modify_found_arc
unlink_out arc st =
    modify_found_arc arc.next_begin_out_arc
      (λ a. record a { prev_begin_out_arc = arc.prev_begin_out_arc })
      (modify_found_arc arc.prev_begin_out_arc
        (λ a. record a { next_begin_out_arc = arc.next_begin_out_arc }) st)

unfoldable pub unlink_in : ArcInfo → Storage → Storage
unfolding modify_found_arc
unlink_in arc st =
    modify_found_arc arc.next_end_in_arc (λ a. record a { prev_end_in_arc = arc.prev_end_in_arc })
      (modify_found_arc arc.prev_end_in_arc
        (λ a. record a { next_end_in_arc = arc.next_end_in_arc }) st)

unfoldable pub unlink_in_structure : ArcInfo → Storage → Storage
unfolding modify_found_arc
unlink_in_structure arc st =
    modify_found_arc arc.next_in_arc_from_structure
      (λ a. record a { prev_in_arc_from_structure = arc.prev_in_arc_from_structure })
      (modify_found_arc arc.prev_in_arc_from_structure
        (λ a. record a { next_in_arc_from_structure = arc.next_in_arc_from_structure }) st)

-- The part of `_sc_storage_element_erase` for a sc-connector.
unfoldable pub disconnect : ScAddr → ℕ → ArcInfo → Storage → Storage
unfolding modify_found unlink_out unlink_in unlink_in_structure sc_type_has_subtype
disconnect connector type arc st =
    let is_two_way =
      sc_type_has_subtype type sc_type_common_edge && not (is_equal_addr arc.begin arc.end) in
    let begin_leaves = λ (e : Element).
      let e' = leave_out connector arc.next_begin_out_arc e in
      if is_two_way then leave_in connector arc.next_end_in_arc e' else e' in
    let end_leaves = λ (e : Element).
      let e' =
        leave_structure connector arc.next_in_arc_from_structure
          (leave_in connector arc.next_end_in_arc e) in
      if is_two_way then leave_out connector arc.next_begin_out_arc e' else e' in
    modify_found arc.end end_leaves (
      unlink_in_structure arc
        (unlink_in arc (modify_found arc.begin begin_leaves (unlink_out arc st))))

abbrev pub with_state : ℕ → Element → Element
with_state state e = record e { states = bit_or e.states state }

unfoldable pub free_if_there : ScAddr → Storage → Storage
unfolding free_element
free_if_there a st = elim (free_element a st) [ none ↦ st | some st' ↦ st' ]

unfoldable pub erase_found : ScAddr → Option Element → Storage → Storage
unfolding disconnect free_if_there modify_element has_state sc_type_has_subtype_in_mask
erase_found a none st = st
erase_found a (some e) st =
    let st' = modify_element a (with_state sc_state_request_erasure) st in
    if has_state e sc_state_request_erasure
    then st
    else if sc_type_has_subtype e.type sc_type_node_link
    then free_if_there a st'
    else if sc_type_has_subtype_in_mask e.type sc_type_connector_mask
    then free_if_there a (disconnect a e.type e.arc st')
    else free_if_there a st'

-- `_sc_storage_element_erase`.
unfoldable pub erase_element : ScAddr → Storage → Storage
unfolding get_element_by_addr erase_found
erase_element a st = erase_found a (get_element_by_addr a st) st

-- The queue of the elements to visit, the sc-connectors that were queued, and the queue of the
-- elements to erase.
pub record Visit : Type 0 where
  pub queue : List ScAddr
  pub cache_table : List ScAddr
  pub erased : List ScAddr

abbrev pub contains_addr : ScAddr → List ScAddr → Bool
contains_addr a [] = false
contains_addr a (b ∷ bs) = is_equal_addr b a || contains_addr a bs

abbrev pub enqueue : ScAddr → Visit → Visit
enqueue a v = record v { queue = v.queue ++ a ∷ []; cache_table = a ∷ v.cache_table }

-- The two loops over the lists of sc-connectors of an element, from one of them on, with a bound on
-- the rounds; `next` is the link that the loop follows.
unfoldable pub enqueue_connectors : ℕ → (ArcInfo → ScAddr) → ScAddr → Storage → Visit → Option Visit
unfolding get_element_by_addr
enqueue_connectors zero next arc st v = none
enqueue_connectors (suc rounds) next arc st v =
    let rest = λ (v' : Visit). enqueue_connectors rounds next (next (st.elements arc).arc) st v' in
    if is_empty_addr arc
    then some v
    else if contains_addr arc v.cache_table
    then rest v
    else if not (is_element arc st)
    then some v
    else rest (enqueue arc v)

-- The loop over the queue of the elements to erase.
unfoldable pub erase_all : List ScAddr → Storage → Storage
unfolding erase_element
erase_all [] st = st
erase_all (a ∷ rest) st = erase_all rest (erase_element a st)

module _ (is_awaited : ScAddr → Element → Bool) where
  -- One element of the queue. `is_awaited` says whether one of the events of its erasure is emitted to
  -- a subscriber: then the subscriber erases it later.
  unfoldable pub visit : ℕ → ScAddr → Storage → Visit → Option (Storage × Visit)
  unfolding enqueue_connectors modify_element has_state
  visit rounds a st v =
      let e = st.elements a in
      let st' =
        if has_state e sc_state_is_erasable
        then st
        else modify_element a (with_state sc_state_is_erasable) st in
      if not (has_state e sc_state_is_erasable) && is_awaited a e
      then some (st', v)
      else elim (enqueue_connectors rounds (λ arc. arc.next_begin_out_arc) e.first_out_arc st'
          (record v { erased = v.erased ++ a ∷ [] })) [
            | none ↦ none
            | some v' ↦
                elim (enqueue_connectors rounds (λ arc. arc.next_end_in_arc) e.first_in_arc st'
                  v') [ none ↦ none | some v'' ↦ some (st', v'') ]
          ]

  -- The loop over the queue, with the bound that each of its loops has too.
  unfoldable pub visit_all : ℕ → ℕ → Storage → Visit → Option (Storage × Visit)
  unfolding visit get_element_by_addr
  visit_all rounds zero st v = none
  visit_all rounds (suc visits) st v = elim v.queue [
    | [] ↦ some (st, v)
    | a ∷ queue ↦
        let v' = record v { queue = queue } in
        if not (is_element a st)
        then visit_all rounds visits st v'
        else elim (visit rounds a st v') [
          | none ↦ none
          | some (st', v'') ↦ visit_all rounds visits st' v''
        ]
  ]

  -- `sc_storage_element_erase`.
  unfoldable pub element_erase : ℕ → ScAddr → Storage → Run (Unit {0})
  unfolding visit_all erase_all get_element_by_addr
  element_erase rounds a st =
      if not (is_element a st)
      then fails error_addr_is_not_valid st
      else elim (visit_all rounds rounds st
          (record { queue = a ∷ []; cache_table = []; erased = [] })) [
            | none ↦ stuck
            | some (st', v) ↦ ok tt (erase_all v.erased st')
          ]
