-- ===== src/Storage/Views.antt =====
-- The parts of the elements that make the outgoing lists, and what else the storage has to keep for
-- a list to stay.
-- What the outgoing lists are made of.
use sc_memory_knowledge_sync.Base.{
  [], ◌∷◌, sym, ◌∙◌, zero, arith, List, ◌&&◌, ap, suc, false, true, none, some, refl, if◌then◌else◌,
  ◌≡◌, Bool, ℕ,
}
use sc_memory_knowledge_sync.Storage.Element.{exists, has_state, Element}
use sc_memory_knowledge_sync.Storage.Generate.Keeps.{links, IgnoresFirst, Ignores}
use sc_memory_knowledge_sync.Storage.State.{
  is_pointer, segment_of_num, get_element_by_addr, is_some, Storage, is_element,
}
use sc_memory_knowledge_sync.ScAddr.{is_empty_addr, is_equal_addr, ScAddr}
use sc_memory_knowledge_sync.Storage.Generate.Linked.{shape}
use sc_memory_knowledge_sync.ScType.Flags.{sc_type_common_edge, sc_type_has_subtype}
use sc_memory_knowledge_sync.Storage.Lists.{OutChain, IsApart}
use sc_memory_knowledge_sync.Storage.Iterator3.{next_out, end_from}

pub record Links : Type 0 where
  pub type : ℕ
  pub states : ℕ
  pub begin : ScAddr
  pub end : ScAddr
  pub next_begin_out_arc : ScAddr
  pub next_end_out_arc : ScAddr

abbrev pub view : Element → Links
view e = record {
  type = e.type;
  states = e.states;
  begin = e.arc.begin;
  end = e.arc.end;
  next_begin_out_arc = e.arc.next_begin_out_arc;
  next_end_out_arc = e.arc.next_end_out_arc;
}

pub view-Ignores : Ignores view
view-Ignores = record {
  prev_out = λ a e. refl;
  prev_in = λ a e. refl;
  prev_structure = λ a e. refl;
  next_structure = λ a e. refl;
  first_structure = λ a e. refl;
}

pub view-IgnoresFirst : IgnoresFirst view
view-IgnoresFirst = record { begin = λ a e. refl; end = λ a e. refl }

-- What a sc-connector is: its type, its states and its two elements.
abbrev pub label : Element → Links
label e = record {
  type = e.type;
  states = e.states;
  begin = e.arc.begin;
  end = e.arc.end;
  next_begin_out_arc = e.arc.begin;
  next_end_out_arc = e.arc.begin;
}

pub label-Ignores : Ignores label
label-Ignores = record {
  prev_out = λ a e. refl;
  prev_in = λ a e. refl;
  prev_structure = λ a e. refl;
  next_structure = λ a e. refl;
  first_structure = λ a e. refl;
}

pub label-IgnoresFirst : IgnoresFirst label
label-IgnoresFirst = record { begin = λ a e. refl; end = λ a e. refl }

pub label-links :
    (r l : Bool) (fo fi : ScAddr) (e : Element)
    → label (record e { arc = links r l fo fi e.arc }) ≡ label e
unfolding links
label-links true l fo fi e = refl
label-links false true fo fi e = refl
label-links false false fo fi e = refl

pub is_some_if : {A : Type 0} → (b : Bool) (x : A) → is_some (if b then some x else none) ≡ b
is_some_if true x = refl
is_some_if false x = refl

segment_of_num-shape :
    (n : ℕ) (st st' : Storage) → shape st' ≡ shape st → segment_of_num n st' ≡ segment_of_num n st
segment_of_num-shape zero st st' h = refl
segment_of_num-shape (suc n) st st' h = ap (λ v. v.0 n) h

pub is_element-shape :
    (st st' : Storage) (a : ScAddr)
    → shape st' ≡ shape st
    → (st'.elements a).states ≡ (st.elements a).states
    → is_element a st' ≡ is_element a st
unfolding is_element get_element_by_addr is_pointer has_state
is_element-shape st st' a h k =
    is_some_if (is_pointer a st' && exists (st'.elements a)) (st'.elements a)
    ∙ rw (segment_of_num-shape a.seg st st' h, ap (λ v. v.1) h, k) refl
    ∙ sym (is_some_if (is_pointer a st && exists (st.elements a)) (st.elements a))

pub is_element-some_addr :
    (a : ScAddr) (st : Storage) → is_element a st ≡ true → is_empty_addr a ≡ false
unfolding is_element get_element_by_addr is_pointer
is_element-some_addr a st h = ground arith

-- The links as `next_out` and `end_from` read them.
abbrev pub next_of : ScAddr → Links → ScAddr
next_of x v =
    if sc_type_has_subtype v.type sc_type_common_edge
    then (if is_equal_addr x v.end then v.next_end_out_arc else v.next_begin_out_arc)
    else v.next_begin_out_arc

abbrev pub other_of : ScAddr → Links → ScAddr
other_of x v =
    if sc_type_has_subtype v.type sc_type_common_edge
    then (if is_equal_addr x v.end then v.begin else v.end)
    else v.end

-- A list without the sc-connector stays.
pub OutChain-frame :
    (st st' : Storage) (c x : ScAddr)
    → ((a : ScAddr) → is_element a st' ≡ is_element a st)
    → ((a : ScAddr) → is_equal_addr a c ≡ false → view (st'.elements a) ≡ view (st.elements a))
    → (ds : List ScAddr) (a a' : ScAddr) → a' ≡ a
    → IsApart c ds
    → OutChain st x ds a
    → OutChain st' x ds a'
OutChain-frame st st' c x k v [] a a' p q h = ap is_empty_addr p ∙ h
OutChain-frame st st' c x k v (d ∷ ds) a a' p (apart, q) (same, some_addr, there, other, h) = (
  p ∙ same,
  some_addr,
  k d ∙ there,
  ap (λ y. is_element y st') (ap (other_of x) (v d apart)) ∙ k (end_from x (st.elements d)) ∙ other,
  OutChain-frame st st' c x k v ds (next_out x (st.elements d)) (next_out x (st'.elements d))
      (ap (next_of x) (v d apart)) q h,
)
