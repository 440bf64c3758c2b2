-- ===== src/Base/Strings.antt =====
-- `std::string` as the list of its bytes, its comparison, and the look-ups of the standard
-- containers: a map is the list of its entries, of which the first with the key is found.
use Prim.Native.Char.{code}
use Prim.Native.String.{String}
use Prim.Native.Nat.{ℕ, zero, suc, ◌+◌, ◌/◌, ◌%◌}
use mathlib.Core.Path.{◌≡◌, refl}
use mathlib.Core.Logic.{◌↔◌}
use mathlib.Core.Bool.{Bool, true, false, ◌&&◌, ◌||◌}
use mathlib.Core.Option.{Option, none, some}
use mathlib.Core.List.{List, [], ◌∷◌, ◌++◌}
use native.Mathlib.Omega.{arith}
use sc_memory_knowledge_sync.Base.Tests.{ltb, ◌==◌, if◌then◌else◌}

abbrev pub Str : Type 0
Str = List ℕ

-- The bytes of an ASCII literal.
abbrev pub codes : String → Str
codes String.[] = []
codes (String.◌∷◌ c s) = code c ∷ codes s

unfoldable pub str_eq : Str → Str → Bool
str_eq [] [] = true
str_eq [] (_ ∷ _) = false
str_eq (_ ∷ _) [] = false
str_eq (a ∷ s) (b ∷ t) = a == b && str_eq s t

pub eq_of_str_eq : (s t : Str) → str_eq s t ≡ true → s ≡ t
unfolding str_eq
eq_of_str_eq [] [] h = refl
eq_of_str_eq [] (b ∷ t) h = ground arith
eq_of_str_eq (a ∷ s) [] h = ground arith
eq_of_str_eq (a ∷ s) (b ∷ t) h = ground (arith, eq_of_str_eq s t)

pub str_eq_refl : (s : Str) → str_eq s s ≡ true
unfolding str_eq
str_eq_refl [] = refl
str_eq_refl (a ∷ s) = ground (arith, str_eq_refl s)

pub str_eq_iff : (s t : Str) → (str_eq s t ≡ true) ↔ (s ≡ t)
str_eq_iff s t = (eq_of_str_eq s t, λ e. rw e (str_eq_refl t))

abbrev pub is_empty : Str → Bool
is_empty [] = true
is_empty (_ ∷ _) = false

-- `std::to_string` of an unsigned number: `fuel` bounds the number of digits.
pub decimal : ℕ → ℕ → Str
decimal zero n = []
decimal (suc fuel) n =
    let front = decimal fuel (n / 10) in
    if ltb n 10 then (48 + n) ∷ [] else front ++ (48 + n % 10) ∷ []

unfoldable pub to_string : ℕ → Str
unfolding decimal
to_string n = decimal (suc n) n

module _ {V : Type 0} where
  -- `find` in a `std::unordered_map<std::string, V>`.
  unfoldable pub find_name : Str → List (Str × V) → Option V
  find_name k [] = none
  find_name k ((j, v) ∷ m) = if str_eq j k then some v else find_name k m

  -- `find` in a `std::unordered_map<ScType, V>`.
  unfoldable pub find_type : ℕ → List (ℕ × V) → Option V
  find_type k [] = none
  find_type k ((j, v) ∷ m) = if j == k then some v else find_type k m

-- `find` in a `std::unordered_set<std::string>`, against its end.
unfoldable pub contains : Str → List Str → Bool
contains k [] = false
contains k (j ∷ m) = str_eq j k || contains k m
