-- ===== src/Scs/Parser/Link.antt =====
-- sc-links and their contents.
pub mod Unescape
use sc_memory_knowledge_sync.Scs.Parser.State.{
  pure, modify, total, returns, out_of_range, write_element, throws, ◌>>=◌, ◌>>◌, Action,
}
use sc_memory_knowledge_sync.Base.{
  zero, suc, ◌||◌, true, drop, ◌++◌, false, ◌-◌, ◌+◌, bit_or, ◌==◌, bit_and, take, length,
  get_elem?, Bool, Option, Str, ℕ, none, some, [], ◌∷◌, if◌then◌else◌,
}
use sc_memory_knowledge_sync.ScType.Methods as ScType
use sc_memory_knowledge_sync.Scs.Parser.Append.{generate_link_idtf, append_element}
use sc_memory_knowledge_sync.Scs.Parser.State.{get_parsed_element_ref}
use sc_memory_knowledge_sync.ScType.Elements.{const, var, node_link, node_link_class}
use sc_memory_knowledge_sync.Scs.Parser.Element.{ElementHandle}

-- `find('\\', pos)` from the position `pos`, for the symbols that stand from there on.
abbrev pub find_backslash : ℕ → Str → Option ℕ
find_backslash pos [] = none
find_backslash pos (c ∷ s) = if c == b'\\' then some pos else find_backslash (pos + 1) s

abbrev pub is_escaped : ℕ → Bool
is_escaped c = c == b'\\' || (c == b'[' || c == b']')

-- One pass of the loop of `UnescapeContent` with a backslash at `pos`: a pair of a backslash and an
-- escaped symbol becomes the symbol.
abbrev pub replace_pair : ℕ → Str → Str
replace_pair pos s = elim (get_elem? s (pos + 1)) [
  | some next ↦ if is_escaped next then take pos s ++ next ∷ drop (pos + 2) s else s
  | none ↦ s
]

-- The loop, with a bound on its rounds; `none` means that the bound was met.
unfoldable pub unescape_from : ℕ → ℕ → Str → Option Str
unescape_from zero pos s = none
unescape_from (suc rounds) pos s = elim (find_backslash pos (drop pos s)) [
  | none ↦ some s
  | some found ↦ unescape_from rounds (found + 1) (replace_pair found s)
]

unfoldable pub unescape_content : Str → Option Str
unfolding unescape_from
unescape_content content = unescape_from (length content + 1) 0 content

-- `DefineLinkType`.
unfoldable pub define_link_type : Str → Bool → ℕ
define_link_type [] is_var = bit_or node_link (if is_var then var else const)
define_link_type (c ∷ _) is_var =
    bit_or (if c == b'!' then node_link_class else node_link) (if is_var then var else const)

-- `substr(1, size() - 2)`, which throws if there is no first symbol.
abbrev pub inner : Str → Option Str
inner [] = none
inner (c ∷ s) = some (take (length s - 1) s)

abbrev bind_option : Option Str → (Str → Option Str) → Option Str
bind_option none f = none
bind_option (some s) f = f s

-- `ParseLinkContent`; `none` is `std::out_of_range`.
unfoldable pub parse_link_content : Str → ℕ → Option Str
unfolding unescape_content
parse_link_content content type =
    let unwrapped =
      if bit_and type node_link_class == node_link_class then inner content else some content in
    bind_option (bind_option unwrapped inner) unescape_content

abbrev or_out_of_range : Option Str → Action Str
or_out_of_range none p = throws out_of_range p
or_out_of_range (some s) p = returns s p

unfoldable pub process_content : Str → Bool → Action ElementHandle
unfolding define_link_type parse_link_content append_element generate_link_idtf
process_content content is_var = do
  let type = define_link_type content is_var
  content' ← or_out_of_range (parse_link_content content type)
  idtf ← total generate_link_idtf
  total (append_element idtf type false content' false)

unfoldable pub process_link : ElementHandle → Str → Bool → Action ElementHandle
unfolding get_parsed_element_ref define_link_type parse_link_content write_element
process_link handle content is_url = do
  link ← get_parsed_element_ref handle
  let type = define_link_type content (ScType.is_var link.type)
  content' ← or_out_of_range (parse_link_content content type)
  modify (write_element handle (record link { type = type; value = content'; is_url = is_url }))
  pure handle

unfoldable pub process_file_url : Str → Action ElementHandle
unfolding define_link_type parse_link_content append_element generate_link_idtf
process_file_url file_url = do
  let type = define_link_type file_url false
  file_url' ← or_out_of_range (parse_link_content file_url type)
  idtf ← total generate_link_idtf
  total (append_element idtf type false file_url' true)
