-- ===== src/Scs/TypeResolver/Constancy.antt =====
-- `TypeResolver::IsConst`: an identifier is variable if an underscore follows its leading dots.
use sc_memory_knowledge_sync.Base.{
  ◌≢◌, ℕ, zero, suc, ◌≡◌, refl, true, not, [], ◌∷◌, Str, ◌==◌, arith,
}
use sc_memory_knowledge_sync.Scs.TypeResolver.{is_const, symbol_after_dots}

abbrev pub dots : ℕ → Str → Str
dots zero rest = rest
dots (suc n) rest = b'.' ∷ dots n rest

symbol-dots : (n c : ℕ) (rest : Str) → c ≢ b'.' → symbol_after_dots b'.' (dots n (c ∷ rest)) ≡ c
unfolding symbol_after_dots
symbol-dots zero c [] h = refl
symbol-dots zero c (d ∷ rest) h = ground arith
symbol-dots (suc n) c rest h = symbol-dots n c rest h

symbol-all_dots : (n : ℕ) → symbol_after_dots b'.' (dots n []) ≡ b'.'
unfolding symbol_after_dots
symbol-all_dots zero = refl
symbol-all_dots (suc n) = symbol-all_dots n

-- An identifier whose first symbol after any number of dots is another symbol than a dot is constant
-- exactly if that symbol is no underscore.
pub is_const-dots :
    (n c : ℕ) (rest : Str) → c ≢ b'.' → is_const (dots n (c ∷ rest)) ≡ not (c == b'_')
unfolding is_const symbol_after_dots
is_const-dots zero c [] h = refl
is_const-dots zero c (d ∷ rest) h = ground arith
is_const-dots (suc n) c rest h = rw (symbol-dots n c rest h)

-- An identifier of dots alone is constant.
pub is_const-all_dots : (n : ℕ) → is_const (dots n []) ≡ true
unfolding is_const
is_const-all_dots zero = refl
is_const-all_dots (suc n) = rw (symbol-all_dots n)
