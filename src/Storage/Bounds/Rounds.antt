-- ===== src/Storage/Bounds/Rounds.antt =====
-- The searches for a segment and for a released element come to a result.
use sc_memory_knowledge_sync.Storage.State.{is_some, segment_of_num, Segment, Storage}
use sc_memory_knowledge_sync.ScAddr.{ScAddr}
use sc_memory_knowledge_sync.Base.{
  zero, suc, true, none, some, inl, inr, refl, sym, ap, subst, arith, Bool-cases, ◌≡◌, ◌∙◌, ◌<◌,
  ◌==◌, ◌||◌, ltb, length, if◌then◌else◌, [], ◌∷◌, List, Option, ℕ,
}
use sc_memory_knowledge_sync.Storage.Allocate.{
  head_of, get_last_not_engaged_segment, unlink_segment, set_next_released, get_released_element,
  release_from, held, open_segment, engage_segment, check_segment_type, get_segment, get_element,
  is_engaged, take_element,
}
use sc_memory_knowledge_sync.Storage.Bounds.Kept.{Kept, KeptAfter, get_segment-Kept}
use sc_memory_knowledge_sync.Storage.Bounds.Ends.{
  SegmentList, IsOther, AreOther, KeepsLinks, SegmentList-frame, segment_of_num-as, other_head,
  get_last_not_engaged_segment-ends,
}
use sc_memory_knowledge_sync.Storage.Refused.Fresh.{IsFresh}

pub get_segment-ends :
    (rounds thread : ℕ) (ns : List ℕ) (st : Storage)
    → length ns < rounds
    → AreOther ns
    → SegmentList (λ e. e.states) st ns st.last_not_engaged_segment_num
    → is_some (get_segment rounds thread st) ≡ true
unfolding get_segment engage_segment
get_segment-ends rounds thread ns st l o h =
    checked (check_segment_type (st.processes_segments_table thread) st)
  where
    engaged :
        (r : Option (Option ℕ × Storage))
        → is_some r ≡ true
        → is_some {A = Option ℕ × Storage} (elim r [
          | none ↦ none
          | some (some num, st') ↦ some (held thread (some num, st'))
          | some (none, st') ↦ some (held thread (open_segment st'))
        ])
          ≡ true
    engaged none e = cc
    engaged (some (some num, st')) e = refl
    engaged (some (none, st')) e = refl

    checked :
        (o : Option ℕ)
        → is_some {A = Option ℕ × Storage}
            (elim o [ some num ↦ some (some num, st) | none ↦ engage_segment rounds thread st ])
          ≡ true
    checked (some num) = refl
    checked none =
        engaged (get_last_not_engaged_segment rounds st)
          (get_last_not_engaged_segment-ends rounds ns st l o h)

pub get_released_element-ends :
    (rounds : ℕ) (ns : List ℕ) (st : Storage)
    → length ns < rounds
    → AreOther ns
    → SegmentList (λ e. e.type) st ns st.last_released_segment_num
    → is_some (get_released_element rounds st) ≡ true
unfolding get_released_element unlink_segment set_next_released
get_released_element-ends zero ns st l o h = absurd (omega arith)
get_released_element-ends (suc rounds) [] st l o h =
    let ends : (st.last_released_segment_num == 0) ≡ true = ground arith in
    rw (get_released_element, ends) refl
get_released_element-ends (suc rounds) (n ∷ ns) st l o (same, there, h) =
    let num = st.last_released_segment_num in
    let next = (st.elements (head_of num)).type in
    let st₁ : Storage = record st { last_released_segment_num = next } in
    let st' = unlink_segment num st in
    let other : IsOther num ns = subst (λ k. IsOther k ns) (sym same) o.0 in
    let keeps : KeepsLinks (λ e. e.type) num st st' = λ m a t. (
      ap is_some (segment_of_num-as m st st' refl) ∙ t,
      ap (λ e. e.type) (other_head m num (record (st.elements (head_of num)) { type = 0 }) st₁ a),
    ) in
    let ih =
      get_released_element-ends rounds ns st' (omega (arith, l)) o.1
        (SegmentList-frame (λ e. e.type) num st st' keeps ns next next refl other h) in
    elim (Bool-cases (num == 0 || ltb st.max_segments_count num)) [
      | inl e ↦ rw (get_released_element, e) refl
      | inr e ↦ rw (get_released_element, e) (go ih (segment_of_num num st) there)
    ]
  where
    go :
        is_some (get_released_element rounds (unlink_segment st.last_released_segment_num st))
          ≡ true
        → (o : Option Segment) → is_some o ≡ true
        → is_some (elim o [
          | none ↦ none
          | some s ↦
              if s.last_released_offset == 0
              then get_released_element rounds (unlink_segment st.last_released_segment_num st)
              else some (release_from st.last_released_segment_num s st)
        ])
          ≡ true
    go ih none e = cc
    go ih (some s) e = elim (Bool-cases (s.last_released_offset == 0)) [
      | inl f ↦ rw f ih
      | inr f ↦ rw f refl
    ]

-- Where no element was taken, the list of the segments with released elements is still there.
abbrev pub NoneKept : Storage → Option (Option ScAddr × Storage) → Type 0
NoneKept st none = ⊥
NoneKept st (some (some a, st')) = Unit
NoneKept st (some (none, st')) = Kept st st'

pub get_element-NoneKept :
    (rounds thread : ℕ) (st : Storage)
    → IsFresh st
    → is_some (get_segment rounds thread st) ≡ true
    → NoneKept st (get_element rounds thread st)
unfolding get_element
get_element-NoneKept rounds thread st f h =
    go (get_segment rounds thread st) h (get_segment-Kept rounds thread st f)
  where
    from_segment :
        (num : ℕ) (s : Segment) (st' : Storage)
        → Kept st st'
        → NoneKept st (some (take_element num s st'))
    from_segment num s st' k = elim (Bool-cases (is_engaged s)) [
      | inr e ↦ rw (take_element, e) tt
      | inl e ↦ elim (Bool-cases (s.last_released_offset == 0)) [
        | inl r ↦ rw (take_element, e, r) k
        | inr r ↦ rw (take_element, e, r) tt
      ]
    ]

    taken :
        (num : ℕ) (o : Option Segment) (st' : Storage)
        → Kept st st'
        → NoneKept st (elim o [ none ↦ some (none, st') | some s ↦ some (take_element num s st') ])
    taken num none st' k = k
    taken num (some s) st' k = from_segment num s st' k

    go :
        (r : Option (Option ℕ × Storage))
        → is_some r ≡ true
        → KeptAfter st r
        → NoneKept st (elim r [
          | none ↦ none
          | some (none, st') ↦ some (none, st')
          | some (some num, st') ↦ elim (segment_of_num num st') [
            | none ↦ some (none, st')
            | some s ↦ some (take_element num s st')
          ]
        ])
    go none e k = cc
    go (some (none, st')) e k = k
    go (some (some num, st')) e k = taken num (segment_of_num num st') st' k
