-- ===== src/Container/Dictionary.antt =====
-- The dictionary, a tree of prefixes, sc_dictionary.c. A string is the list of its bytes up to its
-- size, where its terminating zero stands.
pub mod Prefixes
pub mod Lookup
pub mod Branch
pub mod Trees
pub mod Append
pub mod Descend
pub mod Laws
pub mod Keys
pub mod Total
pub mod Entries
use sc_memory_knowledge_sync.Base.{
  ◌%◌, ◌+◌, ◌-◌, length, drop, str_eq, zero, ◌||◌, suc, is_empty, some, ◌==◌, Bool, ◌∷◌,
  if◌then◌else◌, none, Option, ℕ, [], Str,
}
use sc_memory_knowledge_sync.Storage.State.{is_some}

mutual
  -- `_sc_dictionary_node` but for its mask: the offset, of which the empty list stands for the null
  -- pointer too, the data and the children.
  pub data Node (A : Type 0) : Type 0 where
    node : Str → Option A → Children A → Node A

  -- The children that are there, by their numbers.
  pub data Children (A : Type 0) : Type 0 where
    no_child : Children A
    child : ℕ → Node A → Children A → Children A

abbrev pub offset_of : {A : Type 0} → Node A → Str
offset_of (node o d cs) = o

-- `_sc_dictionary_node_initialize`.
abbrev pub new_node : {A : Type 0} → Node A
new_node = node [] none no_child

-- A pointer to a child, `next[bucket][child]` at its number, and its assignment.
unfoldable pub get_child : {A : Type 0} → ℕ → Children A → Option (Node A)
get_child k no_child = none
get_child k (child k' n cs) = if k' == k then some n else get_child k cs

unfoldable pub set_child : {A : Type 0} → ℕ → Node A → Children A → Children A
set_child k n no_child = child k n no_child
set_child k n (child k' n' cs) =
    let rest = set_child k n cs in if k' == k then child k n cs else child k' n' rest

-- The loop over the equal bytes of a string and an offset: what is left of both, behind the
-- bytes that they have in common.
unfoldable pub split : Str → Str → Str × Str × Str
split (c ∷ s) (x ∷ o) =
    let (common, s', o') = split s o in if x == c then (c ∷ common, s', o') else ([], c ∷ s, x ∷ o)
split s o = ([], s, o)

-- What is left of a string behind a prefix.
unfoldable pub strip : Str → Str → Option Str
strip [] s = some s
strip (x ∷ o) [] = none
strip (x ∷ o) (c ∷ s) = let rest = strip o s in if x == c then rest else none

-- Whether a node ends a string, `sc_str_cmp` of its offset and the end of the string.
abbrev pub is_end : Str → Str → Bool
is_end string o = is_empty o || str_eq o (drop (length string - length o) string)

module _ {A : Type 0} (char_to_int : ℕ → ℕ) where
  -- The node between a node and its child, where a string leaves the child's offset.
  abbrev pub branch : Str → Str → Node A → Node A
  branch common [] (node o d cs) = node o d cs
  branch common (x ∷ o') (node o d cs) =
      node common none (child (char_to_int x) (node (x ∷ o') d cs) no_child)

  -- A string of a first byte and others goes down to a child: what is left of the string, and the node
  -- at which it goes on.
  abbrev pub descend : ℕ → Str → Node A → Str × Node A
  descend c s (node [] d cs) = (s, node [] d cs)
  descend c s (node (x ∷ o) d cs) =
      let (common, s', o') = split (c ∷ s) (x ∷ o) in (s', branch common o' (node (x ∷ o) d cs))

  abbrev pub with_child : Str → Option A → Children A → ℕ → Option (Node A) → Option (Node A)
  with_child o d cs k none = none
  with_child o d cs k (some n) = some (node o d (set_child k n cs))

  -- `sc_dictionary_append_to_node`, with the data that `sc_dictionary_append` writes to the node it
  -- returns, and a bound on the rounds of the loop.
  unfoldable pub append : ℕ → Str → A → Node A → Option (Node A)
  unfolding get_child set_child split
  append zero s v n = none
  append (suc rounds) [] v (node o d cs) = some (node o (some v) cs)
  append (suc rounds) (c ∷ s) v (node o d cs) = elim (get_child (char_to_int c) cs) [
    | none ↦ some (node o d (set_child (char_to_int c) (node (c ∷ s) (some v) no_child) cs))
    | some n ↦
        let (s', n') = descend c s n in with_child o d cs (char_to_int c) (append rounds s' v n')
  ]

  -- `sc_dictionary_get_last_node_from_node`, for the rest of a string from a node on, and for the
  -- children of a node.
  unfoldable mutual
    unfolding strip

    pub get_last_node : Str → Str → Node A → Option (Node A)
    get_last_node string [] (node o d cs) = if is_end string o then some (node o d cs) else none
    get_last_node string (c ∷ s) (node o d cs) = get_last_child string (char_to_int c) (c ∷ s) cs

    pub get_last_child : Str → ℕ → Str → Children A → Option (Node A)
    get_last_child string k s no_child = none
    get_last_child string k s (child k' n cs) =
        if k' == k
        then (elim (strip (offset_of n) s) [
          | none ↦ none
          | some rest ↦ get_last_node string rest n
        ])
        else get_last_child string k s cs

  -- `sc_dictionary_has` and `sc_dictionary_get_by_key`, on the root of a dictionary; `none` is the
  -- null pointer.
  unfoldable pub has : Str → Node A → Bool
  unfolding get_last_node
  has string root = is_some (get_last_node string string root)

  abbrev pub data_of : Option (Node A) → Option A
  data_of none = none
  data_of (some (node o d cs)) = d

  unfoldable pub get_by_key : Str → Node A → Option A
  unfolding get_last_node
  get_by_key string root = data_of (get_last_node string string root)

-- `_sc_uchar_dictionary_sc_char_to_sc_int` and `_sc_number_dictionary_sc_char_to_sc_int`.
abbrev pub uchar_number : ℕ → ℕ
uchar_number ch = (128 + ch) % 256

abbrev pub digit_number : ℕ → ℕ
digit_number ch = (ch + (256 - 48)) % 256
