-- ===== src/Base/Tables.antt =====
-- What holds of every entry of a table holds of what a look-up finds.
use Prim.Native.Nat.{ℕ}
use mathlib.Core.Path.{◌≡◌}
use mathlib.Core.Bool.{Bool, true}
use mathlib.Core.Option.{some}
use mathlib.Core.List.{List, [], ◌∷◌}
use native.Mathlib.Omega.{arith}
use sc_memory_knowledge_sync.Base.Lists.{all}
use sc_memory_knowledge_sync.Base.Strings.{Str, find_type, find_name, str_eq_iff}

module _ {V : Type 0} (p : ℕ → V → Bool) where
  abbrev pub on_type : ℕ × V → Bool
  on_type (k, v) = p k v

  pub find_type-all :
      (k : ℕ) (m : List (ℕ × V)) (v : V)
      → all on_type m ≡ true
      → find_type k m ≡ some v
      → p k v ≡ true
  unfolding find_type
  find_type-all k [] v h e = cc
  find_type-all k ((j, w) ∷ m) v h e = ground (arith, find_type-all k m v)

module _ {V : Type 0} (p : Str → V → Bool) where
  abbrev pub on_name : Str × V → Bool
  on_name (k, v) = p k v

  pub find_name-all :
      (k : Str) (m : List (Str × V)) (v : V)
      → all on_name m ≡ true
      → find_name k m ≡ some v
      → p k v ≡ true
  unfolding find_name
  find_name-all k [] v h e = cc
  find_name-all k ((j, w) ∷ m) v h e = ground (arith, find_name-all k m v, str_eq_iff j k)
