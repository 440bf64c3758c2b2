-- ===== src/Storage/Bounds.antt =====
-- The bounds of the offsets that the allocation gives.
pub mod Elements
pub mod Kept
pub mod Ends
pub mod Rounds
pub mod Total
use sc_memory_knowledge_sync.Base.{
  ◌||◌, if◌then◌else◌, sym, arith, ◌∙◌, ap, refl, ◌-◌, zero, ◌+◌, inr, inl, none, ◌==◌, ltb, suc,
  some, Bool-cases, true, ◌≡◌, Bool, ℕ, Option,
}
use sc_memory_knowledge_sync.Storage.Allocate.{
  begin_existence, allocate_new_element, existing, set_next_released, unlink_segment,
  get_released_element, release_from, get_element, is_engaged, unlink_released, take_element,
  check_segment_type, get_last_free_segment, is_full, head_of, held, engage_segment,
  get_new_segment, set_next_not_engaged, get_segment, open_segment, get_last_not_engaged_segment,
}
use sc_memory_knowledge_sync.Storage.State.{
  update, sc_segment_elements_count, segment_of_num, set_element, Storage, Segment,
}
use sc_memory_knowledge_sync.ScAddr.{ScAddr}

-- The offset 0 of a segment holds no element, so a segment engages at most 65534.
abbrev pub fits : Option Segment → Bool
fits none = true
fits (some s) = ltb s.last_engaged_offset sc_segment_elements_count

abbrev pub fits_after : {A : Type 0} → ℕ → Option (Option A × Storage) → Bool
fits_after i none = true
fits_after i (some (o, st)) = fits (st.segments i)

get_last_not_engaged_segment-fits :
    (rounds i : ℕ) (st : Storage)
    → fits (st.segments i) ≡ true
    → fits_after i (get_last_not_engaged_segment rounds st) ≡ true
unfolding get_last_not_engaged_segment set_next_not_engaged set_element
get_last_not_engaged_segment-fits zero i st h = refl
get_last_not_engaged_segment-fits (suc rounds) i st h =
    let num = st.last_not_engaged_segment_num in
    let next = (st.elements (head_of num)).states in
    let st' = set_next_not_engaged num 0 (record st { last_not_engaged_segment_num = next }) in
    let ih = get_last_not_engaged_segment-fits rounds i st' h in go (segment_of_num num st) refl ih
  where
    go :
        (o : Option Segment)
        → segment_of_num st.last_not_engaged_segment_num st ≡ o
        → fits_after i (
            get_last_not_engaged_segment rounds (
              set_next_not_engaged st.last_not_engaged_segment_num 0 (record st {
                last_not_engaged_segment_num =
                    (st.elements (head_of st.last_not_engaged_segment_num)).states;
              })))
          ≡ true
        → fits_after i (get_last_not_engaged_segment (suc rounds) st) ≡ true
    go none e ih = rw (get_last_not_engaged_segment, e) h
    go (some s) e ih = elim (Bool-cases (is_full s)) [
      | inl f ↦ rw (get_last_not_engaged_segment, e, f) ih
      | inr f ↦ rw (get_last_not_engaged_segment, e, f) h
    ]

get_new_segment-fits :
    (i : ℕ) (st : Storage)
    → fits (st.segments i) ≡ true
    → fits ((get_new_segment st).1.segments i) ≡ true
unfolding get_new_segment
get_new_segment-fits i st h = elim (Bool-cases (st.segments_count == st.max_segments_count)) [
  | inl e ↦ rw (get_new_segment, e) h
  | inr e ↦
      rw (get_new_segment, e)
        (elim (Bool-cases (i == st.segments_count + 1 - 1)) [
          | inl k ↦ rw (update, k) refl
          | inr k ↦ rw (update, k) h
        ])
]

-- The second search for a segment changes nothing.
open_segment-new :
    (r : Option ℕ × Storage)
    → (elim r.0 as (λ o. Option ℕ × Storage) [
      | some num ↦ (some num, r.1)
      | none ↦ (get_last_free_segment r.1, r.1)
    ]).1
      ≡ r.1
open_segment-new (none, st) = refl
open_segment-new (some num, st) = refl

open_segment-fits :
    (i : ℕ) (st : Storage)
    → fits (st.segments i) ≡ true
    → fits ((open_segment st).1.segments i) ≡ true
unfolding open_segment
open_segment-fits i st h =
    ap (λ s. fits (s.segments i)) (open_segment-new (get_new_segment st))
    ∙ get_new_segment-fits i st h

held-fits :
    (thread i : ℕ) (r : Option ℕ × Storage)
    → fits (r.1.segments i) ≡ true
    → fits_after i (some (held thread r)) ≡ true
held-fits thread i (none, st) h = h
held-fits thread i (some num, st) h = h

engaged :
    (thread i : ℕ) (r : Option (Option ℕ × Storage))
    → fits_after i r ≡ true
    → fits_after i (elim r [
      | none ↦ none
      | some (some num, st') ↦ some (held thread (some num, st'))
      | some (none, st') ↦ some (held thread (open_segment st'))
    ])
      ≡ true
engaged thread i none h = refl
engaged thread i (some (some num, st)) h = h
engaged thread i (some (none, st)) h =
    held-fits thread i (open_segment st) (open_segment-fits i st h)

pub get_segment-fits :
    (rounds thread i : ℕ) (st : Storage)
    → fits (st.segments i) ≡ true
    → fits_after i (get_segment rounds thread st) ≡ true
unfolding get_segment engage_segment
get_segment-fits rounds thread i st h =
    checked (check_segment_type (st.processes_segments_table thread) st)
  where
    checked :
        (o : Option ℕ)
        → fits_after i
            (elim o [ some num ↦ some (some num, st) | none ↦ engage_segment rounds thread st ])
          ≡ true
    checked (some num) = h
    checked none =
        engaged thread i (get_last_not_engaged_segment rounds st)
          (get_last_not_engaged_segment-fits rounds i st h)
