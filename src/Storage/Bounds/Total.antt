-- ===== src/Storage/Bounds/Total.antt =====
-- An allocation comes to a result.
use sc_memory_knowledge_sync.Storage.State.{is_some, Storage}
use sc_memory_knowledge_sync.ScAddr.{ScAddr}
use sc_memory_knowledge_sync.Base.{true, none, some, refl, subst, ◌≡◌, ◌<◌, length, List, Option, ℕ}
use sc_memory_knowledge_sync.Storage.Allocate.{
  get_released_element, get_element, existing, allocate_new_element,
}
use sc_memory_knowledge_sync.Storage.Bounds.Elements.{IsBounded, allocate_new_element-IsBounded}
use sc_memory_knowledge_sync.Storage.Bounds.Kept.{Kept}
use sc_memory_knowledge_sync.Storage.Bounds.Ends.{
  SegmentList, AreOther, SegmentList-frame, IsOther-zero,
}
use sc_memory_knowledge_sync.Storage.Refused.Fresh.{IsFresh}
use sc_memory_knowledge_sync.Storage.Refused.Taken.{Takes, TakesAfter}
use sc_memory_knowledge_sync.Storage.Refused.Allocated.{allocate_new_element-Takes}
use sc_memory_knowledge_sync.Storage.Bounds.Rounds.{
  get_segment-ends, get_released_element-ends, NoneKept, get_element-NoneKept,
}

-- The list of the segments with released elements, while they stay.
Kept-SegmentList :
    (rs : List ℕ) (st st' : Storage)
    → Kept st st'
    → SegmentList (λ e. e.type) st rs st.last_released_segment_num
    → SegmentList (λ e. e.type) st' rs st'.last_released_segment_num
Kept-SegmentList rs st st' (same, kept) h =
    SegmentList-frame (λ e. e.type) 0 st st' (λ n a t. kept n t) rs st.last_released_segment_num
      st'.last_released_segment_num same
      (IsOther-zero (λ e. e.type) st rs st.last_released_segment_num h) h

allocate-is_some :
    (rounds thread : ℕ) (rs : List ℕ) (st : Storage)
    → NoneKept st (get_element rounds thread st)
    → length rs < rounds
    → AreOther rs
    → SegmentList (λ e. e.type) st rs st.last_released_segment_num
    → is_some (allocate_new_element rounds thread st) ≡ true
unfolding allocate_new_element
allocate-is_some rounds thread rs st k l o h = go (get_element rounds thread st) k
  where
    exist :
        (q : Option (Option ScAddr × Storage))
        → is_some q ≡ true
        → is_some {A = Option ScAddr × Storage}
            (elim q [ none ↦ none | some r ↦ some (existing r) ])
          ≡ true
    exist none e = cc
    exist (some r) e = refl

    go :
        (r : Option (Option ScAddr × Storage))
        → NoneKept st r
        → is_some {A = Option ScAddr × Storage} (elim r [
          | none ↦ none
          | some (some a, st') ↦ some (existing (some a, st'))
          | some (none, st') ↦ elim (get_released_element rounds st') [
            | none ↦ none
            | some r ↦ some (existing r)
          ]
        ])
          ≡ true
    go none k = absurd k
    go (some (some a, st')) k = refl
    go (some (none, st')) k =
        exist (get_released_element rounds st')
          (get_released_element-ends rounds rs st' l o (Kept-SegmentList rs st st' k h))

-- On a storage whose segments are numbered, hold no element behind the last engaged offset nor at the
-- last released one, and end where the storage says; in which no segment engages an offset above
-- 65534; and whose lists of the segments that no thread holds, and of those with released
-- elements, end and hold no segment twice: with more rounds than each list has segments, an
-- allocation comes to a result. Afterwards no segment engages an offset above 65534. If an
-- address was taken, there was no element at it, and the elements at all others are those that
-- there were; if the memory is full, all elements are.
pub allocate_new_element-ends :
    (rounds thread : ℕ) (ns rs : List ℕ) (st : Storage)
    → IsFresh st
    → IsBounded st
    → AreOther ns
    → SegmentList (λ e. e.states) st ns st.last_not_engaged_segment_num
    → AreOther rs
    → SegmentList (λ e. e.type) st rs st.last_released_segment_num
    → length ns < rounds
    → length rs < rounds
    → (r : Option ScAddr × Storage) × (allocate_new_element rounds thread st ≡ some r)
      × IsBounded r.1
      × Takes st r
allocate_new_element-ends rounds thread ns rs st f b o h o' h' l l' =
    result (allocate_new_element rounds thread st) refl (
      allocate-is_some rounds thread rs st
        (get_element-NoneKept rounds thread st f (get_segment-ends rounds thread ns st l o h)) l' o'
        h')
  where
    result :
        (q : Option (Option ScAddr × Storage))
        → allocate_new_element rounds thread st ≡ q
        → is_some q ≡ true
        → (r : Option ScAddr × Storage) × (allocate_new_element rounds thread st ≡ some r)
          × IsBounded r.1
          × Takes st r
    result none e k = cc
    result (some (a, st')) e k = (
      (a, st'),
      e,
      allocate_new_element-IsBounded rounds thread a st st' b e,
      subst (TakesAfter st) e (allocate_new_element-Takes rounds thread st f),
    )
