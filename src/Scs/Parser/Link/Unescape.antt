-- ===== src/Scs/Parser/Link/Unescape.antt =====
-- `UnescapeContent` against a reading of the content from left to right.
use sc_memory_knowledge_sync.Base.{
  ==_iff, inr, inl, Bool-cases, sym, take, drop, ◌∙◌, get_elem?, ap, drop-length_add, length-append,
  take-length, drop-length, arith, get_elem?-length_add, true, false, ◌+◌, zero, ◌≡◌, ◌&&◌, ◌<◌,
  ◌++◌, ◌==◌, length, ℕ, Str, none, some, [], ◌∷◌, if◌then◌else◌, suc, refl,
}
use mathlib.Core.List.{append_assoc, append-nil}
use sc_memory_knowledge_sync.Scs.Parser.Link.{
  unescape_content, find_backslash, replace_pair, is_escaped, unescape_from,
}

-- A backslash before a backslash or a square bracket stands for the symbol; any other stays.
unfoldable pub unescaped : Str → Str
unescaped [] = []
unescaped (c ∷ []) = c ∷ []
unescaped (c ∷ d ∷ s) =
    let after_pair = unescaped s in
    let after_symbol = unescaped (d ∷ s) in
    if c == b'\\' && is_escaped d then d ∷ after_pair else c ∷ after_symbol

-- The loop stands behind the symbols `a`, which it has read.
abbrev Reads : ℕ → Str → Str → Type 0
Reads rounds a s = unescape_from rounds (length a) (a ++ s) ≡ some (a ++ unescaped s)

snoc : (a : Str) (c : ℕ) (s : Str) → (a ++ c ∷ []) ++ s ≡ a ++ c ∷ s
snoc a c s = append_assoc a (c ∷ []) s

length-snoc : (a : Str) (c : ℕ) → length (a ++ c ∷ []) ≡ length a + 1
length-snoc a c = omega (arith, length-append {0} a (c ∷ []))

-- What a round does depends on the text and on the place of the next backslash alone.
same_round :
    (rounds i j : ℕ) (s t : Str)
    → s ≡ t
    → find_backslash i (drop i s) ≡ find_backslash j (drop j t)
    → unescape_from (suc rounds) i s ≡ unescape_from (suc rounds) j t
unfolding unescape_from
same_round rounds i j s t e h = ground arith

found_round :
    (rounds i found : ℕ) (s : Str)
    → find_backslash i (drop i s) ≡ some found
    → unescape_from (suc rounds) i s ≡ unescape_from rounds (found + 1) (replace_pair found s)
unfolding unescape_from
found_round rounds i found s h = ground arith

last_round :
    (rounds i : ℕ) (s : Str)
    → find_backslash i (drop i s) ≡ none
    → unescape_from (suc rounds) i s ≡ some s
unfolding unescape_from
last_round rounds i s h = ground arith

-- The loop passes over a symbol that is no backslash.
skip :
    (rounds : ℕ) (a : Str) (c : ℕ) (s : Str)
    → (c == b'\\') ≡ false
    → unescape_from (suc rounds) (length a) (a ++ c ∷ s)
      ≡ unescape_from (suc rounds) (length (a ++ c ∷ [])) ((a ++ c ∷ []) ++ s)
skip rounds a c s h = same_round rounds _ _ _ _ (sym (snoc a c s)) (before ∙ sym after)
  where
    before :
        find_backslash (length a) (drop (length a) (a ++ c ∷ s)) ≡ find_backslash (length a + 1) s
    before = ap (find_backslash (length a)) (drop-length a (c ∷ s)) ∙ ground arith

    after :
        find_backslash (length (a ++ c ∷ [])) (drop (length (a ++ c ∷ [])) ((a ++ c ∷ []) ++ s))
        ≡ find_backslash (length a + 1) s
    after =
        ap (find_backslash (length (a ++ c ∷ []))) (drop-length (a ++ c ∷ []) s)
        ∙ ap (λ i. find_backslash i s) (length-snoc a c)

-- At a backslash the loop makes one round.
round :
    (rounds : ℕ) (a s t : Str)
    → replace_pair (length a) (a ++ b'\\' ∷ s) ≡ t
    → unescape_from (suc rounds) (length a) (a ++ b'\\' ∷ s) ≡ unescape_from rounds (length a + 1) t
round rounds a s t e =
    found_round rounds (length a) (length a) (a ++ b'\\' ∷ s)
      (ap (find_backslash (length a)) (drop-length a (b'\\' ∷ s)))
    ∙ ap (unescape_from rounds (length a + 1)) e

replace_escaped :
    (pos d : ℕ) (s : Str)
    → get_elem? s (pos + 1) ≡ some d
    → replace_pair pos s ≡ (if is_escaped d then take pos s ++ d ∷ drop (pos + 2) s else s)
replace_escaped pos d s h = ground arith

replaced_pair :
    (a : Str) (d : ℕ) (s : Str)
    → is_escaped d ≡ true
    → replace_pair (length a) (a ++ b'\\' ∷ d ∷ s) ≡ (a ++ d ∷ []) ++ s
replaced_pair a d s h =
    replace_escaped (length a) d _ (get_elem?-length_add a (b'\\' ∷ d ∷ s) 1)
    ∙ rw (h, take-length a (b'\\' ∷ d ∷ s), drop-length_add a (b'\\' ∷ d ∷ s) 2) (sym (snoc a d s))

kept_symbol :
    (a : Str) (d : ℕ) (s : Str)
    → is_escaped d ≡ false
    → replace_pair (length a) (a ++ b'\\' ∷ d ∷ s) ≡ (a ++ b'\\' ∷ []) ++ d ∷ s
kept_symbol a d s h =
    replace_escaped (length a) d _ (get_elem?-length_add a (b'\\' ∷ d ∷ s) 1)
    ∙ rw h (sym (snoc a b'\\' (d ∷ s)))

kept_last : (a : Str) → replace_pair (length a) (a ++ b'\\' ∷ []) ≡ (a ++ b'\\' ∷ []) ++ []
kept_last a = go (get_elem?-length_add a (b'\\' ∷ []) 1) ∙ sym (append-nil (a ++ b'\\' ∷ []))
  where
    go :
        get_elem? (a ++ b'\\' ∷ []) (length a + 1) ≡ none
        → replace_pair (length a) (a ++ b'\\' ∷ []) ≡ a ++ b'\\' ∷ []
    go h = ground arith

-- A round that leaves the loop behind one more symbol.
advance :
    (rounds : ℕ) (a : Str) (c : ℕ) (s t : Str)
    → unescape_from rounds (length (a ++ c ∷ [])) ((a ++ c ∷ []) ++ s) ≡ some ((a ++ c ∷ []) ++ t)
    → unescape_from rounds (length a + 1) ((a ++ c ∷ []) ++ s) ≡ some (a ++ c ∷ t)
advance rounds a c s t h =
    ap (λ i. unescape_from rounds i ((a ++ c ∷ []) ++ s)) (sym (length-snoc a c))
    ∙ h
    ∙ ap some (snoc a c t)

Reads-end : (rounds : ℕ) (a : Str) → Reads (suc rounds) a []
unfolding unescaped
Reads-end rounds a =
    last_round rounds (length a) (a ++ []) (ap (find_backslash (length a)) (drop-length a []))

unescaped-symbol : (c : ℕ) (s : Str) → (c == b'\\') ≡ false → unescaped (c ∷ s) ≡ c ∷ unescaped s
unfolding unescaped
unescaped-symbol c [] h = refl
unescaped-symbol c (d ∷ s) h = rw h

unescaped-pair :
    (d : ℕ) (s : Str) → is_escaped d ≡ true → unescaped (b'\\' ∷ d ∷ s) ≡ d ∷ unescaped s
unfolding unescaped
unescaped-pair d s h = rw h

unescaped-kept :
    (d : ℕ) (s : Str) → is_escaped d ≡ false → unescaped (b'\\' ∷ d ∷ s) ≡ b'\\' ∷ unescaped (d ∷ s)
unfolding unescaped
unescaped-kept d s h = rw h

-- One step of the loop, whatever comes after.
Reads-symbol :
    (rounds : ℕ) (a : Str) (c : ℕ) (s : Str)
    → (c == b'\\') ≡ false
    → Reads (suc rounds) (a ++ c ∷ []) s
    → Reads (suc rounds) a (c ∷ s)
Reads-symbol rounds a c s e ih =
    skip rounds a c s e
    ∙ ih
    ∙ ap some (snoc a c (unescaped s) ∙ ap (λ t. a ++ t) (sym (unescaped-symbol c s e)))

Reads-last :
    (rounds : ℕ) (a : Str) → Reads rounds (a ++ b'\\' ∷ []) [] → Reads (suc rounds) a (b'\\' ∷ [])
unfolding unescaped
Reads-last rounds a ih = round rounds a [] _ (kept_last a) ∙ advance rounds a b'\\' [] [] ih

Reads-pair :
    (rounds : ℕ) (a : Str) (d : ℕ) (s : Str)
    → is_escaped d ≡ true
    → Reads rounds (a ++ d ∷ []) s
    → Reads (suc rounds) a (b'\\' ∷ d ∷ s)
Reads-pair rounds a d s e ih =
    round rounds a (d ∷ s) _ (replaced_pair a d s e)
    ∙ advance rounds a d s (unescaped s) ih
    ∙ ap some (ap (λ t. a ++ t) (sym (unescaped-pair d s e)))

Reads-kept :
    (rounds : ℕ) (a : Str) (d : ℕ) (s : Str)
    → is_escaped d ≡ false
    → Reads rounds (a ++ b'\\' ∷ []) (d ∷ s)
    → Reads (suc rounds) a (b'\\' ∷ d ∷ s)
Reads-kept rounds a d s e ih =
    round rounds a (d ∷ s) _ (kept_symbol a d s e)
    ∙ advance rounds a b'\\' (d ∷ s) (unescaped (d ∷ s)) ih
    ∙ ap some (ap (λ t. a ++ t) (sym (unescaped-kept d s e)))

-- The loop, given a round more than there are symbols left, reads them all.
unescape_from-Reads : (rounds : ℕ) (a s : Str) → length s < rounds → Reads rounds a s
unescape_from-Reads zero a s h = elim h [ ]
unescape_from-Reads (suc rounds) a [] h = Reads-end rounds a
unescape_from-Reads (suc rounds) a (c ∷ []) h = elim (Bool-cases (c == b'\\')) [
  | inl e ↦
      rw ((==_iff c b'\\').0 e)
        (Reads-last rounds a (unescape_from-Reads rounds (a ++ b'\\' ∷ []) [] (omega arith)))
  | inr e ↦
      Reads-symbol rounds a c [] e (unescape_from-Reads (suc rounds) (a ++ c ∷ []) [] (omega arith))
]
unescape_from-Reads (suc rounds) a (c ∷ d ∷ s) h = elim (Bool-cases (c == b'\\')) [
  | inr e ↦
      Reads-symbol rounds a c (d ∷ s) e
        (unescape_from-Reads (suc rounds) (a ++ c ∷ []) (d ∷ s) (omega arith))
  | inl e ↦ rw ((==_iff c b'\\').0 e) (elim (Bool-cases (is_escaped d)) [
    | inl pair ↦
        Reads-pair rounds a d s pair (unescape_from-Reads rounds (a ++ d ∷ []) s (omega arith))
    | inr kept ↦
        Reads-kept rounds a d s kept
          (unescape_from-Reads rounds (a ++ b'\\' ∷ []) (d ∷ s) (omega arith))
  ])
]

-- `UnescapeContent` ends on every content, and gives the reading of it from left to right in which
-- a backslash before a backslash or a square bracket stands for that symbol and every other symbol
-- stays.
pub unescape_content-unescaped :
    (content : Str) → unescape_content content ≡ some (unescaped content)
unfolding unescape_content
unescape_content-unescaped content =
    unescape_from-Reads (length content + 1) [] content (omega arith)
