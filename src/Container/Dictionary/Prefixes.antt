-- ===== src/Container/Dictionary/Prefixes.antt =====
-- Prefixes of strings.
use sc_memory_knowledge_sync.Container.Dictionary.{strip, split}
use sc_memory_knowledge_sync.Base.{
  refl, [], ◌∙◌, inr, arith, ap, inl, true, none, false, ◌==◌, Bool-cases, some, Bool, ◌∷◌, ◌++◌,
  Option, ◌≡◌, str_eq, Str,
}

pub split-string : (s o : Str) → s ≡ (split s o).0 ++ (split s o).1
unfolding split
split-string [] o = refl
split-string (c ∷ s) [] = refl
split-string (c ∷ s) (x ∷ o) = elim (Bool-cases (x == c)) [
  | inl e ↦ rw e (ap (λ r. c ∷ r) (split-string s o))
  | inr e ↦ rw e refl
]

pub split-offset : (s o : Str) → o ≡ (split s o).0 ++ (split s o).2
unfolding split
split-offset [] o = refl
split-offset (c ∷ s) [] = refl
split-offset (c ∷ s) (x ∷ o) = elim (Bool-cases (x == c)) [
  | inl e ↦
      let same : x ≡ c = ground arith in
      rw e (ap (λ y. y ∷ o) same ∙ ap (λ r. c ∷ r) (split-offset s o))
  | inr e ↦ rw e refl
]

abbrev pub then_strip : Str → Option Str → Option Str
then_strip q none = none
then_strip q (some r) = strip q r

pub strip-append : (p q t : Str) → strip (p ++ q) t ≡ then_strip q (strip p t)
unfolding strip
strip-append [] q t = refl
strip-append (x ∷ p) q [] = refl
strip-append (x ∷ p) q (c ∷ t) = elim (Bool-cases (x == c)) [
  | inl e ↦ rw e (strip-append p q t)
  | inr e ↦ rw e refl
]

pub str_eq-append : (p q t : Str) → str_eq (p ++ t) (p ++ q) ≡ str_eq t q
unfolding str_eq
str_eq-append [] q t = refl
str_eq-append (x ∷ p) q t =
    let same : (x == x) ≡ true = ground arith in rw same (str_eq-append p q t)

-- A string against one with a prefix.
abbrev pub equal_rest : Str → Option Str → Bool
equal_rest q none = false
equal_rest q (some r) = str_eq r q

pub str_eq-strip : (p q t : Str) → str_eq t (p ++ q) ≡ equal_rest q (strip p t)
unfolding str_eq strip
str_eq-strip [] q t = refl
str_eq-strip (x ∷ p) q [] = refl
str_eq-strip (x ∷ p) q (c ∷ t) = elim (Bool-cases (x == c)) [
  | inl e ↦ let same : (c == x) ≡ true = ground arith in rw (e, same) (str_eq-strip p q t)
  | inr e ↦ let other : (c == x) ≡ false = ground arith in rw (e, other) refl
]
