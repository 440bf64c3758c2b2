-- ===== src/Storage/Refused.antt =====
-- The generation of a sc-connector, and its refusal: the elements that it leaves.
pub mod Fresh
pub mod Taken
pub mod Segments
pub mod Allocated
use sc_memory_knowledge_sync.Storage.Refused.Fresh.{IsFresh, Same}
use sc_memory_knowledge_sync.Storage.Refused.Taken.{Takes}
use sc_memory_knowledge_sync.Storage.Bounds.Elements.{IsBounded}
use sc_memory_knowledge_sync.Storage.Bounds.Ends.{AreOther, SegmentList}
use sc_memory_knowledge_sync.Storage.Bounds.Total.{allocate_new_element-ends}
use sc_memory_knowledge_sync.Storage.Incidence.{connect-is_element}
use sc_memory_knowledge_sync.Storage.Generate.{
  free_or_leave, modify_element, arc_new, new_connector, set_connector,
}
use sc_memory_knowledge_sync.ScAddr.{is_equal_addr, is_empty_addr, ScAddr}
use sc_memory_knowledge_sync.Base.{
  ◌<◌, length, List, sym, inl, inr, Bool-cases, ap, none, ◌∙◌, refl, not, Option, ◌||◌, some, true,
  false, ◌&&◌, ◌≡◌, ℕ,
}
use sc_memory_knowledge_sync.Storage.Erase.{free_if_there}
use sc_memory_knowledge_sync.Storage.State.{is_element, Storage, set_element}
use sc_memory_knowledge_sync.ScType.Flags.{sc_type_is_connector}
use sc_memory_knowledge_sync.Storage.Element.{has_state, exists, Element}
use sc_memory_knowledge_sync.Storage.Free.{
  and_true, and_false, free_if_there-is_element, is_element-of,
}
use sc_memory_knowledge_sync.Storage.Generate.Fields.{addr_eq, modify_element-keeps}
use sc_memory_knowledge_sync.Storage.Result.{error_addr_is_not_valid, ok, fails, stuck, Run}
use sc_memory_knowledge_sync.Storage.Allocate.{free_element}

set_connector-is_element :
    (c x : ScAddr) (type : ℕ) (b e : ScAddr) (st : Storage)
    → is_element x (set_connector c type b e st) ≡ is_element x st
unfolding set_connector modify_element set_element has_state
set_connector-is_element c x type b e st =
    let f = λ (y : Element). record y { type = type; arc = record y.arc { begin = b; end = e } } in
    is_element-of st (set_connector c type b e st) x refl refl
      (modify_element-keeps exists c st x f (λ y. refl))

abbrev pub left : ScAddr → ℕ → ScAddr → ScAddr → Storage → Storage
left c type b e st = free_if_there c (set_connector c type b e st)

free_or_leave-elim :
    (o : Option Storage) (st : Storage) → free_or_leave o st ≡ elim o [ none ↦ st | some st' ↦ st' ]
free_or_leave-elim none st = refl
free_or_leave-elim (some st') st = refl

new_connector-left :
    (type : ℕ) (b e c : ScAddr) (st : Storage)
    → (is_element b st && is_element e st) ≡ false
    → new_connector type b e (some (some c, st))
      ≡ fails error_addr_is_not_valid (left c type b e st)
unfolding new_connector free_if_there
new_connector-left type b e c st h =
    rw (set_connector-is_element c b type b e st, set_connector-is_element c e type b e st, h)
      (ap (fails error_addr_is_not_valid) (
        free_or_leave-elim (free_element c (set_connector c type b e st))
          (set_connector c type b e st)))

-- What a generation leaves: where it succeeds, an element at an address that held none, and at all
-- other addresses the elements that there were; where it is refused, the same elements.
abbrev pub Leaves : Storage → Run ScAddr → Type 0
Leaves st (ok c st') =
    (is_element c st ≡ false)
    × ((x : ScAddr) → is_equal_addr x c ≡ false → is_element x st' ≡ is_element x st)
Leaves st (fails e st') = Same st st'
Leaves st stuck = ⊥

left-Same :
    (c : ScAddr) (type : ℕ) (b e : ScAddr) (st st' : Storage)
    → Takes st (some c, st')
    → Same st (left c type b e st')
left-Same c type b e st st' (none_there, others) x =
    free_if_there-is_element c x (set_connector c type b e st')
    ∙ rw (set_connector-is_element c x type b e st') (elim (Bool-cases (is_equal_addr x c)) [
      | inl k ↦ rw k (
          and_false (is_element x st')
          ∙ sym (ap (λ y. is_element y st) (addr_eq x c k) ∙ none_there))
      | inr n ↦ rw n (and_true (is_element x st') ∙ others x n)
    ])

new_connector-Leaves :
    (type : ℕ) (b e : ScAddr) (st : Storage) (r : Option ScAddr × Storage)
    → Takes st r
    → Leaves st (new_connector type b e (some r))
unfolding new_connector
new_connector-Leaves type b e st (none, st') t = t.1
new_connector-Leaves type b e st (some c, st') t =
    elim (Bool-cases (is_element b st' && is_element e st')) [
      | inr n ↦ rw (new_connector-left type b e c st' n) (left-Same c type b e st st' t)
      | inl k ↦
          rw
            (
              new_connector,
              set_connector-is_element c b type b e st',
              set_connector-is_element c e type b e st',
              k,
            )
            (
              t.0,
              λ x n.
                  connect-is_element c type b e (set_connector c type b e st') x
                  ∙ set_connector-is_element c x type b e st'
                  ∙ t.1 x n,
            )
    ]

-- On a storage whose segments are numbered, hold no element behind the last engaged offset nor at the
-- last released one, and end where the storage says; in which no segment engages an offset above
-- 65534; and whose lists of the segments that no thread holds, and of those with released
-- elements, end and hold no segment twice: with more rounds than each list has segments, the
-- generation of a sc-connector comes to a result. If it succeeds, the sc-connector has an address that
-- held no element, and the elements at all other addresses are those that there were. If it is
-- refused, for whatever reason, the elements are those that there were, as an element that was
-- allocated already is released.
pub arc_new-Leaves :
    (rounds thread type : ℕ) (b e : ScAddr) (ns rs : List ℕ) (st : Storage)
    → IsFresh st
    → IsBounded st
    → AreOther ns
    → SegmentList (λ y. y.states) st ns st.last_not_engaged_segment_num
    → AreOther rs
    → SegmentList (λ y. y.type) st rs st.last_released_segment_num
    → length ns < rounds
    → length rs < rounds
    → Leaves st (arc_new rounds thread type b e st)
unfolding arc_new
arc_new-Leaves rounds thread type b e ns rs st f bounded o h o' h' l l' =
    elim (Bool-cases (sc_type_is_connector type)) [
      | inr t ↦ rw (arc_new, t) (λ x. refl)
      | inl t ↦ elim (Bool-cases (is_empty_addr b || is_empty_addr e)) [
        | inl n ↦ rw (arc_new, t, n) (λ x. refl)
        | inr n ↦
            let (r, goes, _, takes) =
              allocate_new_element-ends rounds thread ns rs st f bounded o h o' h' l l' in
            rw (arc_new, t, n, goes) (new_connector-Leaves type b e st r takes)
      ]
    ]
