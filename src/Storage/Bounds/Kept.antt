-- ===== src/Storage/Bounds/Kept.antt =====
-- The list of the segments with released elements stays while an allocation looks for a segment.
use sc_memory_knowledge_sync.Storage.State.{is_some, segment_of_num, set_element, Segment, Storage}
use sc_memory_knowledge_sync.Base.{
  zero, suc, true, false, none, some, inl, inr, refl, ap, arith, Bool-cases, ◌≡◌, ◌∙◌, ◌+◌, ◌-◌,
  ◌==◌, if◌then◌else◌, Option, ℕ,
}
use sc_memory_knowledge_sync.Storage.Allocate.{
  head_of, set_next_not_engaged, get_last_not_engaged_segment, is_full, get_new_segment,
  new_segment, get_last_free_segment, open_segment, held, engage_segment, check_segment_type,
  get_segment,
}
use sc_memory_knowledge_sync.Storage.Generate.{modify_element}
use sc_memory_knowledge_sync.Storage.Generate.Fields.{modify_element-keeps}
use sc_memory_knowledge_sync.Storage.Refused.Fresh.{
  IsFresh, LikeAfter, get_last_not_engaged_segment-Like,
}

-- The segments that there are stay, each with the link to the next one with released elements.
abbrev pub Kept : Storage → Storage → Type 0
Kept st st' =
    (st'.last_released_segment_num ≡ st.last_released_segment_num)
    × ((n : ℕ)
        → is_some (segment_of_num n st) ≡ true
        → (is_some (segment_of_num n st') ≡ true)
          × ((st'.elements (head_of n)).type ≡ (st.elements (head_of n)).type))

abbrev pub KeptAfter {ℓ} : {A : Type ℓ} → Storage → Option (A × Storage) → Type 0
KeptAfter st none = Unit
KeptAfter st (some (o, st')) = Kept st st'

pub Kept-refl : (st : Storage) → Kept st st
Kept-refl st = (refl, λ n h. (h, refl))

pub Kept-trans : (st st' st'' : Storage) → Kept st st' → Kept st' st'' → Kept st st''
Kept-trans st st' st'' (l, k) (l', k') =
    (l' ∙ l, λ n h. ((k' n (k n h).0).0, (k' n (k n h).0).1 ∙ (k n h).1))

segment_of_num-same :
    (n : ℕ) (st st' : Storage)
    → st'.segments ≡ st.segments
    → segment_of_num n st' ≡ segment_of_num n st
segment_of_num-same zero st st' h = refl
segment_of_num-same (suc i) st st' h = ap (λ g. g i) h

not_engaged-Kept :
    (num m k : ℕ) (st : Storage)
    → Kept st (set_next_not_engaged num m (record st { last_not_engaged_segment_num = k }))
unfolding set_next_not_engaged set_element modify_element
not_engaged-Kept num m k st =
    let st₁ : Storage = record st { last_not_engaged_segment_num = k } in
    let st' = set_next_not_engaged num m st₁ in
    (
      refl,
      λ n h. (
        ap is_some (segment_of_num-same n st st' refl) ∙ h,
        modify_element-keeps (λ e. e.type) (head_of num) st₁ (head_of n)
            (λ e. record e { states = m }) (λ e. refl),
      ),
    )

get_last_not_engaged_segment-Kept :
    (rounds : ℕ) (st : Storage) → KeptAfter st (get_last_not_engaged_segment rounds st)
unfolding get_last_not_engaged_segment
get_last_not_engaged_segment-Kept zero st = tt
get_last_not_engaged_segment-Kept (suc rounds) st =
    let num = st.last_not_engaged_segment_num in
    let next = (st.elements (head_of num)).states in
    let st' = set_next_not_engaged num 0 (record st { last_not_engaged_segment_num = next }) in
    go st' (not_engaged-Kept num 0 next st) (get_last_not_engaged_segment rounds st')
      (get_last_not_engaged_segment-Kept rounds st') (segment_of_num num st)
  where
    after :
        (st' : Storage)
        → Kept st st'
        → (r : Option (Option ℕ × Storage)) → KeptAfter st' r
        → KeptAfter st r
    after st' l none k = tt
    after st' l (some (o, st'')) k = Kept-trans st st' st'' l k

    go :
        (st' : Storage)
        → Kept st st'
        → (r : Option (Option ℕ × Storage)) → KeptAfter st' r
        → (o : Option Segment)
        → KeptAfter st (elim o [
          | none ↦ some (none, st)
          | some s ↦ if is_full s then r else some (some st.last_not_engaged_segment_num, st')
        ])
    go st' l r k none = Kept-refl st
    go st' l r k (some s) = elim (Bool-cases (is_full s)) [
      | inl e ↦ rw e (after st' l r k)
      | inr e ↦ rw e l
    ]

new_segment-Kept :
    (st : Storage)
    → st.segments st.segments_count ≡ none
    → Kept st (new_segment (st.segments_count + 1) st)
new_segment-Kept st free = (refl, stays)
  where
    stays :
        (n : ℕ)
        → is_some (segment_of_num n st) ≡ true
        → (is_some (segment_of_num n (new_segment (st.segments_count + 1) st)) ≡ true)
          × (((new_segment (st.segments_count + 1) st).elements (head_of n)).type
              ≡ (st.elements (head_of n)).type)
    stays zero h = cc
    stays (suc i) h = elim (Bool-cases (i == st.segments_count + 1 - 1)) [
      | inl k ↦
          let same : i ≡ st.segments_count = ground arith in
          let gone : is_some (st.segments i) ≡ false = ap is_some (ap st.segments same ∙ free) in cc
      | inr k ↦
          let apart : (suc i == st.segments_count + 1) ≡ false = ground arith in
          (rw k h, rw apart refl)
    ]

get_new_segment-Kept : (st : Storage) → IsFresh st → Kept st (get_new_segment st).1
unfolding get_new_segment
get_new_segment-Kept st f = elim (Bool-cases (st.segments_count == st.max_segments_count)) [
  | inl e ↦ rw (get_new_segment, e) (Kept-refl st)
  | inr e ↦ rw (get_new_segment, e) (new_segment-Kept st (f.next st.segments_count (omega arith)))
]

open_segment-Kept : (st : Storage) → IsFresh st → Kept st (open_segment st).1
unfolding open_segment
open_segment-Kept st f = go (get_new_segment st) (get_new_segment-Kept st f)
  where
    go :
        (r : Option ℕ × Storage)
        → Kept st r.1
        → Kept st
            (elim r.0 as (λ o. Option ℕ × Storage) [
              | some num ↦ (some num, r.1)
              | none ↦ (get_last_free_segment r.1, r.1)
            ]).1
    go (none, st') l = l
    go (some num, st') l = l

held-Kept :
    (thread : ℕ) (st : Storage) (r : Option ℕ × Storage) → Kept st r.1 → Kept st (held thread r).1
held-Kept thread st (none, st') l = l
held-Kept thread st (some num, st') l = (
  l.0,
  λ n h. (
    ap is_some (segment_of_num-same n st' (held thread (some num, st')).1 refl) ∙ (l.1 n h).0,
    (l.1 n h).1,
  ),
)

pub get_segment-Kept :
    (rounds thread : ℕ) (st : Storage) → IsFresh st → KeptAfter st (get_segment rounds thread st)
unfolding get_segment engage_segment
get_segment-Kept rounds thread st f =
    checked (check_segment_type (st.processes_segments_table thread) st)
  where
    engaged :
        (r : Option (Option ℕ × Storage))
        → LikeAfter st r
        → KeptAfter st r
        → KeptAfter st (elim r [
          | none ↦ none
          | some (some num, st') ↦ some (held thread (some num, st'))
          | some (none, st') ↦ some (held thread (open_segment st'))
        ])
    engaged none l k = tt
    engaged (some (some num, st')) l k = held-Kept thread st (some num, st') k
    engaged (some (none, st')) l k =
        held-Kept thread st (open_segment st')
          (Kept-trans st st' (open_segment st').1 k (open_segment-Kept st' l.0))

    checked :
        (o : Option ℕ)
        → KeptAfter st
            (elim o [ some num ↦ some (some num, st) | none ↦ engage_segment rounds thread st ])
    checked (some num) = Kept-refl st
    checked none =
        engaged (get_last_not_engaged_segment rounds st)
          (get_last_not_engaged_segment-Like rounds st f)
          (get_last_not_engaged_segment-Kept rounds st)
