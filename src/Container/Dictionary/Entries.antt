-- ===== src/Container/Dictionary/Entries.antt =====
-- A dictionary as a table of its entries, of which the latest under a key counts.
use sc_memory_knowledge_sync.Base.{refl, length, ◌&&◌, ap, &&-true, suc, all, ◌∷◌, []}
use sc_memory_knowledge_sync.Container.Dictionary.{
  offset_of, Node, append, get_by_key, new_node, uchar_number, digit_number,
}
use sc_memory_knowledge_sync.Container.Dictionary.Trees.{is_tree, IsTree, is_byte}
use sc_memory_knowledge_sync.Base.{
  ◌∙◌, none, [], some, true, arith, Bool, Option, ◌≡◌, Str, ◌<◌, List, str_eq, ℕ, if◌then◌else◌,
}
use sc_memory_knowledge_sync.Container.Dictionary.Laws.{find-append, updated}
use sc_memory_knowledge_sync.Container.Dictionary.Append.{offset-append}
use sc_memory_knowledge_sync.Container.Dictionary.Keys.{get_by_key-find}
use sc_memory_knowledge_sync.Container.Dictionary.Total.{append-IsTree, append-ends}
use sc_memory_knowledge_sync.Container.Dictionary.Lookup.{find}

pub uchar_number-injective : (x y : ℕ) → x < 256 → y < 256 → uchar_number x ≡ uchar_number y → x ≡ y
uchar_number-injective x y hx hy h = omega arith

pub digit_number-injective : (x y : ℕ) → x < 256 → y < 256 → digit_number x ≡ digit_number y → x ≡ y
digit_number-injective x y hx hy h = omega arith

module _ {A : Type 0} where
  -- The value under a key in a list of entries, the latest of which counts.
  unfoldable pub latest : Str → List (Str × A) → Option A → Option A
  unfolding str_eq
  latest t [] before = before
  latest t ((s, v) ∷ entries) before = latest t entries (updated t s v before)

  unfoldable pub are_bytes : List (Str × A) → Bool
  are_bytes [] = true
  are_bytes ((s, v) ∷ entries) = all is_byte s && are_bytes entries

module _ {A : Type 0} (char_to_int : ℕ → ℕ) where
  -- Entries appended one after another, with a round more than a string has bytes.
  unfoldable pub append_all : List (Str × A) → Node A → Option (Node A)
  unfolding append
  append_all [] n = some n
  append_all ((s, v) ∷ entries) n = elim (append char_to_int (suc (length s)) s v n) [
    | none ↦ none
    | some n' ↦ append_all entries n'
  ]

  pub find-new : (t : Str) → find char_to_int t (new_node {A = A}) ≡ none
  unfolding find
  find-new [] = refl
  find-new (c ∷ t) = refl

  pub get_by_key-append :
      (rounds : ℕ) (t s : Str) (v : A) (root root' : Node A)
      → offset_of root ≡ []
      → IsTree char_to_int root
      → append char_to_int rounds s v root ≡ some root'
      → get_by_key char_to_int t root' ≡ updated t s v (get_by_key char_to_int t root)
  get_by_key-append rounds t s v root root' top tree h =
      let top' = offset-append char_to_int rounds s v root root' h ∙ top in
      rw (get_by_key-find char_to_int t root' top', get_by_key-find char_to_int t root top)
        (find-append char_to_int rounds t s v root root' tree h)

module _ {A : Type 0} (char_to_int : ℕ → ℕ)
    (injective : (x y : ℕ) → x < 256 → y < 256 → char_to_int x ≡ char_to_int y → x ≡ y) where
  -- Where the numbers of two bytes differ, an append of a string of bytes to a dictionary ends: as
  -- many rounds as the string has bytes, and one more, are enough. It gives a dictionary again, in
  -- which the search for the string gives its new data, and for any other key what it gave before.
  pub get_by_key-append_ends :
      (rounds : ℕ) (s : Str) (v : A) (root : Node A)
      → length s < rounds
      → all is_byte s ≡ true
      → offset_of root ≡ []
      → IsTree char_to_int root
      → (root' : Node A) × ((append char_to_int rounds s v root ≡ some root')
          × (offset_of root' ≡ [])
          × IsTree char_to_int root'
          × ((t : Str)
              → get_by_key char_to_int t root'
                ≡ (if str_eq t s then some v else get_by_key char_to_int t root)))
  get_by_key-append_ends rounds s v root enough b top tree =
      let (root', goes) = append-ends char_to_int injective rounds s v root enough b tree in
      (
        root',
        (
          goes,
          offset-append char_to_int rounds s v root root' goes ∙ top,
          append-IsTree char_to_int injective rounds s v root root' b tree goes,
          λ t. get_by_key-append char_to_int rounds t s v root root' top tree goes,
        ),
      )

  get_by_key-entries :
      (entries : List (Str × A)) (t : Str) (root : Node A)
      → are_bytes entries ≡ true
      → offset_of root ≡ []
      → IsTree char_to_int root
      → (root' : Node A) × ((append_all char_to_int entries root ≡ some root')
          × (get_by_key char_to_int t root' ≡ latest t entries (get_by_key char_to_int t root)))
  unfolding append_all latest are_bytes
  get_by_key-entries [] t root bs top tree = (root, (refl, refl))
  get_by_key-entries ((s, v) ∷ entries) t root bs top tree =
      let (b, rest) = &&-true {a = all is_byte s} {b = are_bytes entries} bs in
      let (next, goes) =
        append-ends char_to_int injective (suc (length s)) s v root (omega arith) b tree in
      let top' = offset-append char_to_int (suc (length s)) s v root next goes ∙ top in
      let tree' = append-IsTree char_to_int injective (suc (length s)) s v root next b tree goes in
      let (root', (all_goes, found)) = get_by_key-entries entries t next rest top' tree' in
      (
        root',
        (
          ap
                (λ r. elim r as (λ n. Option (Node A)) [
                  | none ↦ none
                  | some n ↦ append_all char_to_int entries n
                ])
                goes
              ∙ all_goes,
          found
              ∙ ap (latest t entries)
                  (get_by_key-append char_to_int (suc (length s)) t s v root next top tree goes),
        ),
      )

  -- A dictionary is a table: where the numbers of two bytes differ, strings of bytes that are appended to a
  -- new dictionary with their data all get in, and the search for a key then gives the data that were
  -- appended last under that key, and the null pointer where the key was never appended.
  pub get_by_key-append_all :
      (entries : List (Str × A)) (t : Str)
      → are_bytes entries ≡ true
      → (root : Node A) × ((append_all char_to_int entries new_node ≡ some root)
          × (get_by_key char_to_int t root ≡ latest t entries none))
  unfolding get_by_key is_tree
  get_by_key-append_all entries t bs =
      let (root, (goes, found)) = get_by_key-entries entries t new_node bs refl refl in
      (
        root,
        (
          goes,
          found
              ∙ ap (latest t entries)
                  (get_by_key-find char_to_int t new_node refl ∙ find-new char_to_int t),
        ),
      )
