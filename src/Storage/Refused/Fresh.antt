-- ===== src/Storage/Refused/Fresh.antt =====
-- The elements that an allocation leaves as they are, and the address that it takes.
use sc_memory_knowledge_sync.Storage.State.{
  is_pointer, get_element_by_addr, is_element, segment_of_num, set_element, Segment, Storage,
}
use sc_memory_knowledge_sync.Storage.Element.{Element}
use sc_memory_knowledge_sync.ScAddr.{is_equal_addr, ScAddr}
use sc_memory_knowledge_sync.Base.{
  zero, suc, false, none, some, inl, inr, refl, sym, ap, arith, Bool-cases, ◌≡◌, ◌∙◌, ◌≤◌, ◌<◌, ◌+◌,
  if◌then◌else◌, Option, ℕ,
}
use sc_memory_knowledge_sync.Storage.Allocate.{
  head_of, set_next_not_engaged, get_last_not_engaged_segment, is_full,
}
use sc_memory_knowledge_sync.Storage.Free.{is_element-of, is_element-head}
use sc_memory_knowledge_sync.Storage.Generate.Fields.{addr_eq}

abbrev pub at : ℕ → ℕ → ScAddr
at i o = record { seg = i + 1; offset = o }

-- The segments are numbered by their places, hold no element behind the last engaged offset nor at
-- the last released one, and the places behind the segments are free.
pub record IsFresh (st : Storage) : Type 0 where
  pub numbers : (i : ℕ) (s : Segment) → st.segments i ≡ some s → s.num ≡ i + 1
  pub engaged :
      (i o : ℕ) (s : Segment)
      → st.segments i ≡ some s
      → s.last_engaged_offset < o
      → is_element (at i o) st ≡ false
  pub released :
      (i : ℕ) (s : Segment)
      → st.segments i ≡ some s
      → is_element (at i s.last_released_offset) st ≡ false
  pub next : (i : ℕ) → st.segments_count ≤ i → st.segments i ≡ none

-- The same elements.
abbrev pub Same : Storage → Storage → Type 0
Same st st' = (x : ScAddr) → is_element x st' ≡ is_element x st

abbrev pub Like : Storage → Storage → Type 0
Like st st' = IsFresh st' × Same st st'

pub Like-trans : (st st' st'' : Storage) → Like st st' → Like st' st'' → Like st st''
Like-trans st st' st'' h k = (k.0, λ x. k.1 x ∙ h.1 x)

-- Where the segments stay, and the elements too.
pub Same-Like :
    (st st' : Storage)
    → st'.segments ≡ st.segments
    → st'.segments_count ≡ st.segments_count
    → Same st st'
    → IsFresh st
    → Like st st'
Same-Like st st' p q k f = (
  record {
    numbers = λ i s e. f.numbers i s (ap (λ g. g i) (sym p) ∙ e);
    engaged = λ i o s e l. k (at i o) ∙ f.engaged i o s (ap (λ g. g i) (sym p) ∙ e) l;
    released =
        λ i s e. k (at i s.last_released_offset) ∙ f.released i s (ap (λ g. g i) (sym p) ∙ e);
    next = λ i l. ap (λ g. g i) p ∙ f.next i (omega (arith, q, l));
  },
  k,
)

-- A write to the element at the offset 0.
pub head-Same : (num : ℕ) (e : Element) (st : Storage) → Same st (set_element (head_of num) e st)
unfolding set_element
head-Same num e st x = elim (Bool-cases (is_equal_addr x (head_of num))) [
  | inl k ↦
      let at_head = λ (s : Storage).
        ap (λ y. is_element y s) (addr_eq x (head_of num) k) ∙ is_element-head num s in
      at_head (set_element (head_of num) e st) ∙ sym (at_head st)
  | inr k ↦ is_element-of st (set_element (head_of num) e st) x refl refl (rw k refl)
]

abbrev pub LikeAfter {ℓ} : {A : Type ℓ} → Storage → Option (A × Storage) → Type 0
LikeAfter st none = Unit
LikeAfter st (some (o, st')) = Like st st'

not_engaged-Like :
    (num m n : ℕ) (st : Storage)
    → IsFresh st
    → Like st (set_next_not_engaged num m (record st { last_not_engaged_segment_num = n }))
unfolding set_next_not_engaged set_element is_element get_element_by_addr is_pointer
not_engaged-Like num m n st f =
    let st' : Storage = record st { last_not_engaged_segment_num = n } in
    Same-Like st (set_next_not_engaged num m st') refl refl
      (λ x.
        head-Same num (record (st.elements (head_of num)) { states = m }) st' x
        ∙ is_element-of st st' x refl refl refl)
      f

pub get_last_not_engaged_segment-Like :
    (rounds : ℕ) (st : Storage) → IsFresh st → LikeAfter st (get_last_not_engaged_segment rounds st)
unfolding get_last_not_engaged_segment
get_last_not_engaged_segment-Like zero st f = tt
get_last_not_engaged_segment-Like (suc rounds) st f =
    let num = st.last_not_engaged_segment_num in
    let next = (st.elements (head_of num)).states in
    let st' = set_next_not_engaged num 0 (record st { last_not_engaged_segment_num = next }) in
    let like = not_engaged-Like num 0 next st f in
    let ih = get_last_not_engaged_segment-Like rounds st' like.0 in
    go st' like (get_last_not_engaged_segment rounds st') ih (segment_of_num num st)
  where
    after :
        (st' : Storage)
        → Like st st'
        → (r : Option (Option ℕ × Storage)) → LikeAfter st' r
        → LikeAfter st r
    after st' l none k = tt
    after st' l (some (o, st'')) k = Like-trans st st' st'' l k

    go :
        (st' : Storage)
        → Like st st'
        → (r : Option (Option ℕ × Storage)) → LikeAfter st' r
        → (o : Option Segment)
        → LikeAfter st (elim o [
          | none ↦ some (none, st)
          | some s ↦ if is_full s then r else some (some st.last_not_engaged_segment_num, st')
        ])
    go st' l r k none = (f, λ x. refl)
    go st' l r k (some s) = elim (Bool-cases (is_full s)) [
      | inl e ↦ rw e (after st' l r k)
      | inr e ↦ rw e l
    ]
