-- ===== src/Storage/Incidence.antt =====
-- The outgoing lists of the elements after a sc-connector is generated.
-- Whether a sc-connector is put in the outgoing list of an element.
use sc_memory_knowledge_sync.Base.{
  refl, inr, inl, ◌∷◌, not, Bool-cases, ◌∙◌, arith, sym, false, ◌&&◌, List, true, ap, if◌then◌else◌,
  ◌||◌, ◌≡◌, Bool, ℕ,
}
use sc_memory_knowledge_sync.ScAddr.{is_equal_addr, ScAddr}
use sc_memory_knowledge_sync.Storage.State.{is_element, Storage}
use sc_memory_knowledge_sync.Storage.Generate.Linked.{
  connect-apart, connect-shape, connect-generated, is_two_way, connect-keeps, incident,
}
use sc_memory_knowledge_sync.Storage.Generate.{make_elements_incident_to_arc, connect}
use sc_memory_knowledge_sync.Storage.Views.{
  is_element-some_addr, OutChain-frame, label-links, view-IgnoresFirst, label-IgnoresFirst,
  view-Ignores, label-Ignores, is_element-shape, label, view,
}
use sc_memory_knowledge_sync.Storage.Generate.Keeps.{
  same_branches, first_out_arc-Ignores, make_elements-first_out_arc, make_elements-at, links,
}
use sc_memory_knowledge_sync.ScType.Flags.{sc_type_common_edge, sc_type_has_subtype}
use sc_memory_knowledge_sync.Storage.Iterator3.{end_from, next_out}
use sc_memory_knowledge_sync.Storage.Lists.{OutChain, OutList, IsApart}
use sc_memory_knowledge_sync.Storage.Generate.Fields.{addr_eq_sym, addr_eq_refl, addr_eq}

abbrev pub is_side : ℕ → ScAddr → ScAddr → ScAddr → Bool
is_side type b e x =
    is_equal_addr x b || (sc_type_has_subtype type sc_type_common_edge && is_equal_addr x e)

module _ (c : ScAddr) (type : ℕ) (b e : ScAddr) (st : Storage) where
  incident-first_out_arc :
      (two l : Bool) (x : ScAddr)
      → ((incident two c b e l st).elements x).first_out_arc ≡ (
          if is_equal_addr x b || (two && is_equal_addr x e)
          then c
          else (st.elements x).first_out_arc)
  incident-first_out_arc false l x =
      make_elements-first_out_arc c b e false l st x
      ∙ (elim (Bool-cases (is_equal_addr x b)) [ inl h ↦ rw h refl | inr h ↦ rw h refl ])
  incident-first_out_arc true l x =
      make_elements-first_out_arc c e b true false (make_elements_incident_to_arc c b e false l st)
        x
      ∙ ap (λ a. if is_equal_addr x e then c else a)
          (make_elements-first_out_arc c b e false l st x)
      ∙ (elim (Bool-cases (is_equal_addr x b)) [
        | inl h ↦ rw h (same_branches (is_equal_addr x e) c)
        | inr h ↦ rw h refl
      ])

  -- A loop has one side.
  is_side-two_way :
      (x : ScAddr)
      → (is_equal_addr x b || (is_two_way type b e && is_equal_addr x e)) ≡ is_side type b e x
  is_side-two_way x = ground arith

  connect-first_out_arc :
      (x : ScAddr)
      → ((connect c type b e st).elements x).first_out_arc
        ≡ (if is_side type b e x then c else (st.elements x).first_out_arc)
  connect-first_out_arc x =
      connect-generated (λ e. e.first_out_arc) first_out_arc-Ignores c type b e st x
      ∙ incident-first_out_arc (is_two_way type b e) (not (not (is_equal_addr b e))) x
      ∙ ap (λ s. if s then c else (st.elements x).first_out_arc) (is_side-two_way x)

  -- The links of the sc-connector.
  made :
      (b e : ScAddr) (r l : Bool) (st : Storage)
      → view ((make_elements_incident_to_arc c b e r l st).elements c)
        ≡ view (record (st.elements c) {
          arc =
              links r l
                (st.elements b).first_out_arc
                (st.elements e).first_in_arc
                (st.elements c).arc;
        })
  made b e r l st =
      make_elements-at view view-Ignores c c view-IgnoresFirst b e r l st ∙ rw (addr_eq_refl c) refl

  direct-next_begin_out_arc :
      (l : Bool)
      → ((make_elements_incident_to_arc c b e false l st).elements c).arc.next_begin_out_arc
        ≡ (st.elements b).first_out_arc
  unfolding links
  direct-next_begin_out_arc true = ap (λ v. v.next_begin_out_arc) (made b e false true st)
  direct-next_begin_out_arc false = ap (λ v. v.next_begin_out_arc) (made b e false false st)

  incident-next_begin_out_arc :
      (two l : Bool)
      → ((incident two c b e l st).elements c).arc.next_begin_out_arc
        ≡ (st.elements b).first_out_arc
  unfolding links
  incident-next_begin_out_arc false l = direct-next_begin_out_arc l
  incident-next_begin_out_arc true l =
      ap (λ v. v.next_begin_out_arc)
        (made e b true false (make_elements_incident_to_arc c b e false l st))
      ∙ direct-next_begin_out_arc l

  incident-next_end_out_arc :
      (two l : Bool)
      → ((incident two c b e l st).elements c).arc.next_end_out_arc ≡ (
          if two
          then ((make_elements_incident_to_arc c b e false l st).elements e).first_out_arc
          else if l
          then (st.elements b).first_out_arc
          else (st.elements c).arc.next_end_out_arc)
  unfolding links
  incident-next_end_out_arc false true = ap (λ v. v.next_end_out_arc) (made b e false true st)
  incident-next_end_out_arc false false = ap (λ v. v.next_end_out_arc) (made b e false false st)
  incident-next_end_out_arc true l =
      ap (λ v. v.next_end_out_arc)
        (made e b true false (make_elements_incident_to_arc c b e false l st))

  connect-next_begin_out_arc :
      ((connect c type b e st).elements c).arc.next_begin_out_arc ≡ (st.elements b).first_out_arc
  connect-next_begin_out_arc =
      ap (λ v. v.next_begin_out_arc) (connect-generated view view-Ignores c type b e st c)
      ∙ incident-next_begin_out_arc (is_two_way type b e) (not (not (is_equal_addr b e)))

  -- An edge has a link for the list of its end too.
  connect-next_end_out_arc :
      sc_type_has_subtype type sc_type_common_edge ≡ true
      → ((connect c type b e st).elements c).arc.next_end_out_arc ≡ (st.elements e).first_out_arc
  connect-next_end_out_arc edge =
      ap (λ v. v.next_end_out_arc) (connect-generated view view-Ignores c type b e st c)
      ∙ incident-next_end_out_arc (is_two_way type b e) (not (not (is_equal_addr b e)))
      ∙ elim (Bool-cases (is_equal_addr b e)) [
        | inl h ↦ rw (edge, h) (ap (λ a. (st.elements a).first_out_arc) (addr_eq b e h))
        | inr h ↦
            rw (edge, h)
              (make_elements-first_out_arc c b e false false st e ∙ rw (addr_eq_sym e b, h) refl)
      ]

  pub connect-label :
      (x : ScAddr) → label ((connect c type b e st).elements x) ≡ label (st.elements x)
  connect-label x = connect-keeps label label-Ignores label-IgnoresFirst label-links c type b e st x

  pub connect-is_element : (x : ScAddr) → is_element x (connect c type b e st) ≡ is_element x st
  connect-is_element x =
      is_element-shape st (connect c type b e st) x (connect-shape c type b e st)
        (ap (λ v. v.states) (connect-label x))

  module _ (type_at : (st.elements c).type ≡ type) (begin_at_c : (st.elements c).arc.begin ≡ b)
      (end_at_c : (st.elements c).arc.end ≡ e) where
    first_at :
        (x y : ScAddr)
        → is_equal_addr x y ≡ true
        → (st.elements y).first_out_arc ≡ (st.elements x).first_out_arc
    first_at x y h = ap (λ a. (st.elements a).first_out_arc) (sym (addr_eq x y h))

    next_out-connect :
        (x : ScAddr)
        → is_side type b e x ≡ true
        → next_out x ((connect c type b e st).elements c) ≡ (st.elements x).first_out_arc
    next_out-connect x h =
        rw
          (
            ap (λ v. v.type) (connect-label c) ∙ type_at,
            ap (λ v. v.end) (connect-label c) ∙ end_at_c,
          )
          (elim (Bool-cases (sc_type_has_subtype type sc_type_common_edge)) [
            | inr n ↦ rw n (connect-next_begin_out_arc ∙ first_at x b (ground arith))
            | inl n ↦ elim (Bool-cases (is_equal_addr x e)) [
              | inl k ↦ rw (n, k) (connect-next_end_out_arc n ∙ first_at x e k)
              | inr k ↦ rw (n, k) (connect-next_begin_out_arc ∙ first_at x b (ground arith))
            ]
          ])

    other-connect :
        (x : ScAddr)
        → is_element b st ≡ true
        → is_element e st ≡ true
        → is_element (end_from x ((connect c type b e st).elements c)) st ≡ true
    other-connect x k l =
        rw
          (
            ap (λ v. v.type) (connect-label c) ∙ type_at,
            ap (λ v. v.end) (connect-label c) ∙ end_at_c,
            ap (λ v. v.begin) (connect-label c) ∙ begin_at_c,
          )
          (elim (Bool-cases (sc_type_has_subtype type sc_type_common_edge)) [
            | inr n ↦ rw n l
            | inl n ↦ elim (Bool-cases (is_equal_addr x e)) [
              | inl m ↦ rw (n, m) k
              | inr m ↦ rw (n, m) l
            ]
          ])

    -- A generated sc-connector, of two elements, is put first in the outgoing list of its begin and,
    -- if it is a common edge, in that of its end; the outgoing lists of all elements, without
    -- the sc-connector before, have the same sc-connectors behind it in the same order.
    pub connect-OutList :
        (x : ScAddr) (ds : List ScAddr)
        → is_element c st ≡ true
        → is_element b st ≡ true
        → is_element e st ≡ true
        → IsApart c ds
        → OutList st x ds
        → OutList (connect c type b e st) x (if is_side type b e x then c ∷ ds else ds)
    connect-OutList x ds k l m apart h = go (is_side type b e x) refl
      where
        st' : Storage
        st' = connect c type b e st

        frame : (a a' : ScAddr) → a' ≡ a → OutChain st x ds a → OutChain st' x ds a'
        frame a a' p g =
            OutChain-frame st st' c x connect-is_element
              (λ y n. connect-apart view view-Ignores view-IgnoresFirst c type b e st y n) ds a a' p
              apart g

        go : (s : Bool) → is_side type b e x ≡ s → OutList st' x (if s then c ∷ ds else ds)
        go false n =
            frame (st.elements x).first_out_arc (st'.elements x).first_out_arc
              (connect-first_out_arc x ∙ rw n refl) h
        go true n = (
          connect-first_out_arc x ∙ rw n refl,
          is_element-some_addr c st k,
          connect-is_element c ∙ k,
          connect-is_element (end_from x (st'.elements c)) ∙ other-connect x l m,
          frame (st.elements x).first_out_arc (next_out x (st'.elements c)) (next_out-connect x n)
              h,
        )
