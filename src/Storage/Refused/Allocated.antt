-- ===== src/Storage/Refused/Allocated.antt =====
-- An allocation, from the segment of the thread or of a released element.
use sc_memory_knowledge_sync.Storage.State.{
  segment_of_num, set_element, is_element, Segment, Storage,
}
use sc_memory_knowledge_sync.Storage.Element.{exists, has_state}
use sc_memory_knowledge_sync.ScAddr.{is_equal_addr, ScAddr}
use sc_memory_knowledge_sync.Base.{
  zero, suc, false, none, some, inl, inr, refl, ap, arith, Bool-cases, ◌≡◌, ◌∙◌, ◌+◌, ◌==◌, ◌||◌,
  ltb, if◌then◌else◌, Option, ℕ,
}
use sc_memory_knowledge_sync.Storage.Allocate.{
  unlink_released, get_element, unlink_segment, release_from, head_of, set_next_released,
  get_released_element, begin_existence, existing, allocate_new_element,
}
use sc_memory_knowledge_sync.Storage.Free.{is_element-of}
use sc_memory_knowledge_sync.Storage.Refused.Fresh.{IsFresh, Same, Like, Same-Like, head-Same}
use sc_memory_knowledge_sync.Storage.Refused.Taken.{
  Takes, TakesAfter, TakesAfter-behind, unlink_released-Same, get_element-Takes,
}

unlink_segment-Same : (num : ℕ) (st : Storage) → Same st (unlink_segment num st)
unfolding unlink_segment set_next_released set_element has_state
unlink_segment-Same num st x =
    let st' : Storage = record st {
      last_released_segment_num = (st.elements (head_of num)).type;
    } in
    head-Same num (record (st.elements (head_of num)) { type = 0 }) st' x
    ∙ is_element-of st st' x refl refl refl

unlink_segment-Like : (num : ℕ) (st : Storage) → IsFresh st → Like st (unlink_segment num st)
unfolding unlink_segment set_next_released set_element
unlink_segment-Like num st f =
    Same-Like st (unlink_segment num st) refl refl (unlink_segment-Same num st) f

released_at-none :
    (num : ℕ) (s : Segment) (st : Storage)
    → IsFresh st
    → segment_of_num num st ≡ some s
    → is_element (record { seg = num; offset = s.last_released_offset }) st ≡ false
released_at-none zero s st f h = cc
released_at-none (suc i) s st f h =
    ap (λ n. is_element (record { seg = n; offset = s.last_released_offset }) st) {y = i + 1}
      (omega arith)
    ∙ f.released i s h

release_from-Takes :
    (num : ℕ) (s : Segment) (st : Storage)
    → IsFresh st
    → segment_of_num num st ≡ some s
    → Takes st (release_from num s st)
unfolding release_from
release_from-Takes num s st f h =
    let next = (st.elements (record { seg = num; offset = s.last_released_offset })).type in
    let same = unlink_released-Same num s st h in
    elim (Bool-cases (next == 0)) [
      | inl e ↦
          rw (release_from, e)
            (
              released_at-none num s st f h,
              λ x n. unlink_segment-Same num (unlink_released num s st) x ∙ same x,
            )
      | inr e ↦ rw (release_from, e) (released_at-none num s st f h, λ x n. same x)
    ]

get_released_element-Takes :
    (rounds : ℕ) (st : Storage) → IsFresh st → TakesAfter st (get_released_element rounds st)
unfolding get_released_element
get_released_element-Takes zero st f = tt
get_released_element-Takes (suc rounds) st f =
    let num = st.last_released_segment_num in
    let like = unlink_segment-Like num st f in
    let ih =
      TakesAfter-behind st (unlink_segment num st)
        (get_released_element rounds (unlink_segment num st)) like
        (get_released_element-Takes rounds (unlink_segment num st) like.0) in
    elim (Bool-cases (num == 0 || ltb st.max_segments_count num)) [
      | inl n ↦ rw (get_released_element, n) (f, λ x. refl)
      | inr n ↦ rw (get_released_element, n) (go ih (segment_of_num num st) refl)
    ]
  where
    go :
        TakesAfter st (get_released_element rounds (unlink_segment st.last_released_segment_num st))
        → (o : Option Segment) → segment_of_num st.last_released_segment_num st ≡ o
        → TakesAfter st (elim o [
          | none ↦ none
          | some s ↦
              if s.last_released_offset == 0
              then get_released_element rounds (unlink_segment st.last_released_segment_num st)
              else some (release_from st.last_released_segment_num s st)
        ])
    go ih none e = tt
    go ih (some s) e = elim (Bool-cases (s.last_released_offset == 0)) [
      | inl n ↦ rw n ih
      | inr n ↦ rw n (release_from-Takes st.last_released_segment_num s st f e)
    ]

existing-Takes : (st : Storage) (r : Option ScAddr × Storage) → Takes st r → Takes st (existing r)
unfolding existing begin_existence set_element
existing-Takes st (none, st') k = k
existing-Takes st (some c, st') k = (k.0, λ x n. begun x n ∙ k.1 x n)
  where
    begun :
        (x : ScAddr)
        → is_equal_addr x c ≡ false
        → is_element x (begin_existence c st') ≡ is_element x st'
    begun x n =
        is_element-of st' (begin_existence c st') x refl refl
          (ap exists {x = (begin_existence c st').elements x} {y = st'.elements x} (rw n refl))

-- Where an allocation takes an address, there was no element, and the other elements stay; where the
-- memory is full, all stay.
pub allocate_new_element-Takes :
    (rounds thread : ℕ) (st : Storage)
    → IsFresh st
    → TakesAfter st (allocate_new_element rounds thread st)
unfolding allocate_new_element
allocate_new_element-Takes rounds thread st f =
    go (get_element rounds thread st) (get_element-Takes rounds thread st f)
  where
    exist :
        (q : Option (Option ScAddr × Storage))
        → TakesAfter st q
        → TakesAfter st (elim q [ none ↦ none | some r ↦ some (existing r) ])
    exist none k = tt
    exist (some r) k = existing-Takes st r k

    go :
        (r : Option (Option ScAddr × Storage))
        → TakesAfter st r
        → TakesAfter st (elim r [
          | none ↦ none
          | some (some a, st') ↦ some (existing (some a, st'))
          | some (none, st') ↦ elim (get_released_element rounds st') [
            | none ↦ none
            | some r ↦ some (existing r)
          ]
        ])
    go none k = tt
    go (some (some a, st')) k = existing-Takes st (some a, st') k
    go (some (none, st')) k = exist (get_released_element rounds st') (
        TakesAfter-behind st st' (get_released_element rounds st') k
          (get_released_element-Takes rounds st' k.0))
