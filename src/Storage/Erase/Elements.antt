-- ===== src/Storage/Erase/Elements.antt =====
-- What the parts of an erasure do to the states of the elements.
use sc_memory_knowledge_sync.Storage.Generate.{modify_element}
use sc_memory_knowledge_sync.Storage.Erase.{
  leave_structure, leave_in, leave_out, disconnect, unlink_in_structure, unlink_in, unlink_out,
  modify_found_arc, modify_found,
}
use sc_memory_knowledge_sync.Base.{
  ◌==◌, bit_and, ap, not, refl, inr, false, ◌&&◌, inl, true, if◌then◌else◌, ◌∙◌, Bool-cases, ◌≡◌, ℕ,
  Bool,
}
use sc_memory_knowledge_sync.Storage.State.{is_element, Storage, set_element}
use sc_memory_knowledge_sync.ScAddr.{is_equal_addr, is_empty_addr, ScAddr}
use sc_memory_knowledge_sync.Storage.Element.{has_state, Element, ArcInfo}
use sc_memory_knowledge_sync.Storage.Free.{is_element-of}
use sc_memory_knowledge_sync.ScType.Flags.{sc_type_common_edge, sc_type_has_subtype}
use sc_memory_knowledge_sync.Storage.Generate.Fields.{modify_element-keeps}

-- Whether an address has an element, and its states.
abbrev pub part : ScAddr → Storage → Bool × ℕ
part x st = (is_element x st, (st.elements x).states)

modify_element-part :
    (a x : ScAddr) (f : Element → Element) (st : Storage)
    → ((e : Element) → (f e).states ≡ e.states)
    → part x (modify_element a f st) ≡ part x st
unfolding modify_element set_element has_state
modify_element-part a x f st k =
    let states = modify_element-keeps (λ e. e.states) a st x f k in
    ap (λ i. (i, ((modify_element a f st).elements x).states))
      (is_element-of st (modify_element a f st) x refl refl (ap (λ s. bit_and s 2 == 2) states))
    ∙ ap (λ s. (is_element x st, s)) states

modify_found-part :
    (a x : ScAddr) (f : Element → Element) (st : Storage)
    → ((e : Element) → (f e).states ≡ e.states)
    → part x (modify_found a f st) ≡ part x st
unfolding modify_found
modify_found-part a x f st k = elim (Bool-cases (is_element a st)) [
  | inl h ↦ rw (modify_found, h) (modify_element-part a x f st k)
  | inr h ↦ rw (modify_found, h) refl
]

modify_found_arc-part :
    (a x : ScAddr) (f : ArcInfo → ArcInfo) (st : Storage)
    → part x (modify_found_arc a f st) ≡ part x st
unfolding modify_found_arc
modify_found_arc-part a x f st = elim (Bool-cases (is_empty_addr a)) [
  | inl h ↦ rw h refl
  | inr h ↦ rw h (modify_found-part a x (λ e. record e { arc = f e.arc }) st (λ e. refl))
]

unlink_out-part :
    (arc : ArcInfo) (st : Storage) (x : ScAddr) → part x (unlink_out arc st) ≡ part x st
unfolding unlink_out
unlink_out-part arc st x =
    let next = λ (a : ArcInfo). record a { next_begin_out_arc = arc.next_begin_out_arc } in
    let prev = λ (a : ArcInfo). record a { prev_begin_out_arc = arc.prev_begin_out_arc } in
    modify_found_arc-part arc.next_begin_out_arc x prev
      (modify_found_arc arc.prev_begin_out_arc next st)
    ∙ modify_found_arc-part arc.prev_begin_out_arc x next st

unlink_in-part : (arc : ArcInfo) (st : Storage) (x : ScAddr) → part x (unlink_in arc st) ≡ part x st
unfolding unlink_in
unlink_in-part arc st x =
    let next = λ (a : ArcInfo). record a { next_end_in_arc = arc.next_end_in_arc } in
    let prev = λ (a : ArcInfo). record a { prev_end_in_arc = arc.prev_end_in_arc } in
    modify_found_arc-part arc.next_end_in_arc x prev (modify_found_arc arc.prev_end_in_arc next st)
    ∙ modify_found_arc-part arc.prev_end_in_arc x next st

unlink_in_structure-part :
    (arc : ArcInfo) (st : Storage) (x : ScAddr) → part x (unlink_in_structure arc st) ≡ part x st
unfolding unlink_in_structure
unlink_in_structure-part arc st x =
    let next =
      λ (a : ArcInfo). record a { next_in_arc_from_structure = arc.next_in_arc_from_structure } in
    let prev =
      λ (a : ArcInfo). record a { prev_in_arc_from_structure = arc.prev_in_arc_from_structure } in
    modify_found_arc-part arc.next_in_arc_from_structure x prev
      (modify_found_arc arc.prev_in_arc_from_structure next st)
    ∙ modify_found_arc-part arc.prev_in_arc_from_structure x next st

states_if :
    (b : Bool) (e e' : Element) → e.states ≡ e'.states → (if b then e else e').states ≡ e'.states
states_if true e e' h = h
states_if false e e' h = refl

pub disconnect-part :
    (c : ScAddr) (type : ℕ) (arc : ArcInfo) (st : Storage) (x : ScAddr)
    → part x (disconnect c type arc st) ≡ part x st
unfolding disconnect
disconnect-part c type arc st x =
    let two =
      sc_type_has_subtype type sc_type_common_edge && not (is_equal_addr arc.begin arc.end) in
    let out = λ (e : Element). leave_out c arc.next_begin_out_arc e in
    let at_begin = λ (e : Element). if two then leave_in c arc.next_end_in_arc (out e) else out e in
    let in_ = λ (e : Element).
      leave_structure c arc.next_in_arc_from_structure (leave_in c arc.next_end_in_arc e) in
    let at_end =
      λ (e : Element). if two then leave_out c arc.next_begin_out_arc (in_ e) else in_ e in
    let st₁ = unlink_out arc st in
    let st₂ = modify_found arc.begin at_begin st₁ in
    let st₃ = unlink_in arc st₂ in
    modify_found-part arc.end x at_end (unlink_in_structure arc st₃)
      (λ e. states_if two (leave_out c arc.next_begin_out_arc (in_ e)) (in_ e) refl)
    ∙ unlink_in_structure-part arc st₃ x
    ∙ unlink_in-part arc st₂ x
    ∙ modify_found-part arc.begin x at_begin st₁
        (λ e. states_if two (leave_in c arc.next_end_in_arc (out e)) (out e) refl)
    ∙ unlink_out-part arc st x
