-- ===== src/Container/Queue/Indices.antt =====
-- Lists of the values of a function, and indices that wrap around once.
use native.Mathlib.Nat.{mod-eq_of_lt, mod-eq-sub-mod}
use sc_memory_knowledge_sync.Base.{
  ◌≤◌, inr, refl, inl, ◌∙◌, zero, Bool-cases, arith, ◌%◌, ◌-◌, ◌++◌, ap, ◌∷◌, ◌+◌, ltb, ◌≡◌, [],
  if◌then◌else◌, suc, ◌<◌, List, ℕ,
}

abbrev pub tabulate {ℓ} : {A : Type ℓ} → ℕ → (ℕ → A) → List A
tabulate zero f = []
tabulate (suc n) f = f 0 ∷ tabulate n (λ i. f (suc i))

pub tabulate-ext {ℓ} :
    {A : Type ℓ} (n : ℕ) (f g : ℕ → A) → ((i : ℕ) → i < n → f i ≡ g i) → tabulate n f ≡ tabulate n g
tabulate-ext zero f g h = refl
tabulate-ext (suc n) f g h =
    ap (λ x. x ∷ tabulate n (λ i. f (suc i))) (h 0 (omega arith))
    ∙ ap (λ l. g 0 ∷ l)
        (tabulate-ext n (λ i. f (suc i)) (λ i. g (suc i)) (λ i l. h (suc i) (omega arith)))

pub tabulate-last {ℓ} :
    {A : Type ℓ} (n : ℕ) (f : ℕ → A) → tabulate (suc n) f ≡ tabulate n f ++ f n ∷ []
tabulate-last zero f = refl
tabulate-last (suc n) f = ap (λ l. f 0 ∷ l) (tabulate-last n (λ i. f (suc i)))

-- The index of the i-th element.
abbrev pub index : ℕ → ℕ → ℕ
index capacity i = if ltb i capacity then i else i - capacity

pub mod-index : (capacity i : ℕ) → i < capacity + capacity → i % capacity ≡ index capacity i
mod-index capacity i h = elim (Bool-cases (ltb i capacity)) [
  | inl l ↦ rw l (mod-eq_of_lt (ground arith))
  | inr l ↦
      let wraps : capacity ≤ i = ground arith in
      rw l (mod-eq-sub-mod wraps ∙ mod-eq_of_lt (omega arith))
]
