-- ===== src/Scs/Parser/Contour/Ordered.antt =====
-- The set of the new elements of a contour is ordered by `ElementHandle::operator<` and holds no
-- handle twice.
use sc_memory_knowledge_sync.Scs.Parser.Element.{
  ParsedElement, ParsedTriple, ElementHandle, visibility_rank, eq_handle, lt_handle,
}
use sc_memory_knowledge_sync.Base.{
  ◌==◌, ◌&&◌, ◌||◌, false, Bool, arith, [], ◌+◌, true, ◌∷◌, ◌≡◌, ℕ, List,
}
use sc_memory_knowledge_sync.Scs.Parser.State.{Parser}
use sc_memory_knowledge_sync.Scs.Parser.Invariant.{All}

pub lt_handle_trans :
    (a b c : ElementHandle) → lt_handle a b ≡ true → lt_handle b c ≡ true → lt_handle a c ≡ true
unfolding lt_handle
lt_handle_trans a b c p q = ground arith

-- Every handle comes before all that follow it.
abbrev pub IsSorted : List ElementHandle → Type 0
IsSorted [] = Unit
IsSorted (h ∷ hs) = All (λ k. lt_handle h k ≡ true) hs × IsSorted hs

abbrev pub has_handle : ElementHandle → List ElementHandle → Bool
has_handle h [] = false
has_handle h (k ∷ ks) = eq_handle k h || has_handle h ks

-- Whether a handle is one of the elements that stand from a place on.
abbrev pub is_at : ElementHandle → ℕ → List ParsedElement → Bool
is_at h i [] = false
is_at h i (e ∷ es) =
    (i == h.id && visibility_rank e.visibility == visibility_rank h.visibility)
    || is_at h (i + 1) es

-- Whether a handle is of a part of one of the triples.
abbrev pub is_part : ElementHandle → List ParsedTriple → Bool
is_part h [] = false
is_part h (t ∷ ts) =
    (eq_handle t.source h || (eq_handle t.connector h || eq_handle t.target h)) || is_part h ts
