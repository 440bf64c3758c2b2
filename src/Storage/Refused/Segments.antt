-- ===== src/Storage/Refused/Segments.antt =====
-- The search for a segment leaves the elements as they are.
use sc_memory_knowledge_sync.Storage.State.{
  is_some, is_pointer, get_element_by_addr, is_element, segment_of_num, Segment, Storage,
}
use sc_memory_knowledge_sync.Storage.Element.{zero_element, exists, has_state}
use sc_memory_knowledge_sync.ScAddr.{ScAddr}
use sc_memory_knowledge_sync.Base.{
  zero, suc, false, none, some, inl, inr, refl, sym, ap, arith, Bool-cases, ◌≡◌, ◌∙◌, ◌<◌, ◌+◌, ◌-◌,
  ◌==◌, ◌&&◌, Option, ℕ,
}
use sc_memory_knowledge_sync.Storage.Allocate.{
  get_last_not_engaged_segment, get_new_segment, new_segment, get_last_free_segment, open_segment,
  held, hold, engage_segment, check_segment_type, get_segment,
}
use sc_memory_knowledge_sync.Storage.Free.{is_element-of, and_false, numbered}
use sc_memory_knowledge_sync.Storage.Views.{is_some_if}
use sc_memory_knowledge_sync.Storage.Refused.Fresh.{
  at, IsFresh, Same, Like, Like-trans, Same-Like, LikeAfter, get_last_not_engaged_segment-Like,
}

-- A new segment has no elements, and there were none at its addresses.
no_segment : (x : ScAddr) (st : Storage) → segment_of_num x.seg st ≡ none → is_element x st ≡ false
unfolding is_element get_element_by_addr is_pointer
no_segment x st h = ground arith

no_segment_at : (i o : ℕ) (st : Storage) → st.segments i ≡ none → is_element (at i o) st ≡ false
no_segment_at i o st h =
    no_segment (at i o) st (ap (λ n. segment_of_num n st) {y = suc i} (omega arith) ∙ h)

zero-exists : exists zero_element ≡ false
unfolding has_state
zero-exists = refl

new_segment-Same :
    (st : Storage)
    → st.segments st.segments_count ≡ none
    → Same st (new_segment (st.segments_count + 1) st)
unfolding is_element get_element_by_addr
new_segment-Same st free x =
    let st' = new_segment (st.segments_count + 1) st in
    elim (Bool-cases (x.seg == st.segments_count + 1)) [
      | inl k ↦
          let num : x.seg ≡ suc st.segments_count = ground arith in
          is_some_if (is_pointer x st' && exists (st'.elements x)) (st'.elements x)
          ∙ rw (k, zero-exists) (and_false (is_pointer x st'))
          ∙ sym (no_segment x st (ap (λ n. segment_of_num n st) num ∙ free))
      | inr k ↦
          is_element-of st st' x refl (apart x.seg k)
            (ap exists {x = st'.elements x} {y = st.elements x} (rw k refl))
    ]
  where
    apart :
        (n : ℕ)
        → (n == st.segments_count + 1) ≡ false
        → is_some (numbered n (new_segment (st.segments_count + 1) st).segments)
          ≡ is_some (numbered n st.segments)
    apart zero k = refl
    apart (suc i) k =
        let other : (i == st.segments_count + 1 - 1) ≡ false = ground arith in rw other refl

get_new_segment-Like : (st : Storage) → IsFresh st → Like st (get_new_segment st).1
unfolding get_new_segment
get_new_segment-Like st f = elim (Bool-cases (st.segments_count == st.max_segments_count)) [
  | inl e ↦ rw (get_new_segment, e) (f, λ x. refl)
  | inr e ↦
      let st' = new_segment (st.segments_count + 1) st in
      let same = new_segment-Same st (f.next st.segments_count (omega arith)) in
      rw (get_new_segment, e)
        (
          record {
            numbers = λ i s h. ground (arith, f.numbers i s);
            engaged = λ i o s h l. same (at i o) ∙ engaged_offset i o s h l;
            released = λ i s h. same (at i s.last_released_offset) ∙ released_offset i s h;
            next = λ i l. ground (arith, f.next i (omega (arith, l)));
          },
          same,
        )
]
  where
    engaged_offset :
        (i o : ℕ) (s : Segment)
        → (new_segment (st.segments_count + 1) st).segments i ≡ some s
        → s.last_engaged_offset < o
        → is_element (at i o) st ≡ false
    engaged_offset i o s h l = elim (Bool-cases (i == st.segments_count + 1 - 1)) [
      | inl k ↦ no_segment_at i o st (f.next i (ground arith))
      | inr k ↦ f.engaged i o s (ground arith) l
    ]

    released_offset :
        (i : ℕ) (s : Segment)
        → (new_segment (st.segments_count + 1) st).segments i ≡ some s
        → is_element (at i s.last_released_offset) st ≡ false
    released_offset i s h = elim (Bool-cases (i == st.segments_count + 1 - 1)) [
      | inl k ↦ no_segment_at i s.last_released_offset st (f.next i (ground arith))
      | inr k ↦ f.released i s (ground arith)
    ]

open_segment-Like : (st : Storage) → IsFresh st → Like st (open_segment st).1
unfolding open_segment
open_segment-Like st f = go (get_new_segment st) (get_new_segment-Like st f)
  where
    go :
        (r : Option ℕ × Storage)
        → Like st r.1
        → Like st
            (elim r.0 as (λ o. Option ℕ × Storage) [
              | some num ↦ (some num, r.1)
              | none ↦ (get_last_free_segment r.1, r.1)
            ]).1
    go (none, st') l = l
    go (some num, st') l = l

held-Like :
    (thread : ℕ) (st : Storage) (r : Option ℕ × Storage) → Like st r.1 → Like st (held thread r).1
unfolding is_element get_element_by_addr is_pointer
held-Like thread st (none, st') l = l
held-Like thread st (some num, st') l = Like-trans st st' (hold thread num st') l (
    Same-Like st' (hold thread num st') refl refl
      (λ x. is_element-of st' (hold thread num st') x refl refl refl) l.0)

pub get_segment-Like :
    (rounds thread : ℕ) (st : Storage) → IsFresh st → LikeAfter st (get_segment rounds thread st)
unfolding get_segment engage_segment
get_segment-Like rounds thread st f =
    checked (check_segment_type (st.processes_segments_table thread) st)
  where
    engaged_Like :
        (r : Option (Option ℕ × Storage))
        → LikeAfter st r
        → LikeAfter st (elim r [
          | none ↦ none
          | some (some num, st') ↦ some (held thread (some num, st'))
          | some (none, st') ↦ some (held thread (open_segment st'))
        ])
    engaged_Like none l = tt
    engaged_Like (some (some num, st')) l = held-Like thread st (some num, st') l
    engaged_Like (some (none, st')) l =
        held-Like thread st (open_segment st')
          (Like-trans st st' (open_segment st').1 l (open_segment-Like st' l.0))

    checked :
        (o : Option ℕ)
        → LikeAfter st
            (elim o [ some num ↦ some (some num, st) | none ↦ engage_segment rounds thread st ])
    checked (some num) = (f, λ x. refl)
    checked none =
        engaged_Like (get_last_not_engaged_segment rounds st)
          (get_last_not_engaged_segment-Like rounds st f)
