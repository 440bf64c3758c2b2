-- ===== src/Storage/Generate/Fields.antt =====
-- What the changes of single elements do to the fields of an element.
use sc_memory_knowledge_sync.ScAddr.{is_empty_addr, is_equal_addr, ScAddr}
use sc_memory_knowledge_sync.Storage.Element.{ArcInfo, Element}
use sc_memory_knowledge_sync.Storage.State.{is_pointer, set_element, Storage}
use sc_memory_knowledge_sync.Base.{
  refl, inr, ◌&&◌, sym, ◌∙◌, ap, inl, not, if◌then◌else◌, Bool-cases, arith, true, ◌≡◌,
}
use sc_memory_knowledge_sync.Storage.Generate.{modify_arc_at, modify_arc, modify_element}

pub addr_eq : (a b : ScAddr) → is_equal_addr a b ≡ true → a ≡ b
addr_eq a b h = ground arith

pub addr_eq_refl : (a : ScAddr) → is_equal_addr a a ≡ true
addr_eq_refl a = ground arith

pub addr_eq_sym : (a b : ScAddr) → is_equal_addr a b ≡ is_equal_addr b a
addr_eq_sym a b = ground arith

module _ {ℓ} {A : Type ℓ} (g : Element → A) (a : ScAddr) (st : Storage) (x : ScAddr) where
  pub modify_element-at :
      (f : Element → Element)
      → g ((modify_element a f st).elements x)
        ≡ (if is_equal_addr x a then g (f (st.elements x)) else g (st.elements x))
  unfolding modify_element set_element
  modify_element-at f = elim (Bool-cases (is_equal_addr x a)) [
    | inl e ↦ rw e (ap (λ y. g (f (st.elements y))) (sym (addr_eq x a e)))
    | inr e ↦ rw e refl
  ]

  pub modify_element-keeps :
      (f : Element → Element)
      → ((e : Element) → g (f e) ≡ g e)
      → g ((modify_element a f st).elements x) ≡ g (st.elements x)
  modify_element-keeps f keep = elim (Bool-cases (is_equal_addr x a)) [
    | inl e ↦ modify_element-at f ∙ rw e (keep (st.elements x))
    | inr e ↦ modify_element-at f ∙ rw e refl
  ]

  pub modify_arc-keeps :
      (f : ArcInfo → ArcInfo)
      → ((e : Element) → g (record e { arc = f e.arc }) ≡ g e)
      → g ((modify_arc a f st).elements x) ≡ g (st.elements x)
  unfolding modify_arc
  modify_arc-keeps f keep = modify_element-keeps (λ e. record e { arc = f e.arc }) keep

  pub modify_arc-at :
      (f : ArcInfo → ArcInfo)
      → g ((modify_arc a f st).elements x) ≡ (
          if is_equal_addr x a
          then g (record (st.elements x) { arc = f (st.elements x).arc })
          else g (st.elements x))
  unfolding modify_arc
  modify_arc-at f = modify_element-at (λ e. record e { arc = f e.arc })

  pub modify_arc_at-keeps :
      (f : ArcInfo → ArcInfo)
      → ((e : Element) → g (record e { arc = f e.arc }) ≡ g e)
      → g ((modify_arc_at a f st).elements x) ≡ g (st.elements x)
  unfolding modify_arc_at
  modify_arc_at-keeps f keep = elim (Bool-cases (not (is_empty_addr a) && is_pointer a st)) [
    | inl e ↦ rw e (modify_arc-keeps f keep)
    | inr e ↦ rw e refl
  ]
