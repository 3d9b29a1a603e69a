-- ===== src/Http/Request/Headers.antt =====
-- The header lines of a request: what is found under a key is the value of the first line with
-- that key, and the lines are read as they were written.
use cppsocks.Base.{Option, none, some, Option-cases, Bool-cases, inl, inr}
use cppsocks.Base.{List, [], ◌∷◌, ◌++◌, All, ◌≡◌, refl, sym, ap, ◌∙◌}
use cppsocks.Base.{arith, take-append_length, drop-append_more, All-append}
use cppsocks.Base.Bytes.{text_eq, text_eq→eq}
use cppsocks.Base.Text.{Text, Without, lines, lines-append, find_text, find_text-append}
use cppsocks.Http.Request.{HeadersMap, find, emplace, parse_lines}

abbrev pub or_else : Option Text → Option Text → Option Text
or_else (some v) o = some v
or_else none o = o

or_else-none : (o : Option Text) → o ≡ or_else o none
or_else-none none = refl
or_else-none (some v) = refl

or_else_assoc : (a b c : Option Text) → or_else (or_else a b) c ≡ or_else a (or_else b c)
or_else_assoc none b c = refl
or_else_assoc (some v) b c = refl

find-append :
    (key : Text) (hs gs : HeadersMap) → find key (hs ++ gs) ≡ or_else (find key hs) (find key gs)
unfolding find
find-append key [] gs = refl
find-append key ((k, v) ∷ hs) gs = ground (arith, find-append key hs gs)

-- A key that is found is no other key.
find_same :
    (key k v old : Text) (hs : HeadersMap)
    → find k hs ≡ some old
    → find key hs ≡ none
    → find key ((k, v) ∷ []) ≡ none
unfolding find
find_same key k v old hs e missing = elim (Bool-cases (text_eq k key)) [
  | inl same ↦ cc (rw (text_eq→eq k key same) at e)
  | inr other ↦ rw other
]

pub find-emplace :
    (key k v : Text) (hs : HeadersMap)
    → find key (emplace k v hs) ≡ or_else (find key hs) (find key ((k, v) ∷ []))
unfolding emplace
find-emplace key k v hs = elim (Option-cases (find k hs)) [
  | inl new ↦ rw (new, emplace) (find-append key hs ((k, v) ∷ []))
  | inr (old, e) ↦
      rw (e, emplace)
        (elim (Option-cases (find key hs)) [
          | inl missing ↦ rw (missing, find_same key k v old hs e missing)
          | inr (w, found) ↦ rw found
        ])
]

abbrev pub emplace_all : HeadersMap → HeadersMap → HeadersMap
emplace_all hs [] = hs
emplace_all hs ((k, v) ∷ gs) = emplace_all (emplace k v hs) gs

-- A key that is looked up in a header map into which a list of headers was emplaced gives the
-- value that it had before, or else its first value in the list.
pub find-emplace_all :
    (key : Text) (hs gs : HeadersMap)
    → find key (emplace_all hs gs) ≡ or_else (find key hs) (find key gs)
find-emplace_all key hs [] = unfold find in or_else-none (find key hs)
find-emplace_all key hs ((k, v) ∷ gs) =
    find-emplace_all key (emplace k v hs) gs
    ∙ ap (λ o. or_else o (find key gs)) (find-emplace key k v hs)
    ∙ or_else_assoc (find key hs) (find key ((k, v) ∷ [])) (find key gs)
    ∙ ap (or_else (find key hs)) (sym (find-append key ((k, v) ∷ []) gs))

-- A header as a client writes it, without the line's end; the `\r` stays in the value.
abbrev pub header_line : Text × Text → Text
header_line (k, v) = k ++ (b':' ∷ b' ' ∷ (v ++ (b'\r' ∷ [])))

abbrev pub header_text : HeadersMap → Text
header_text [] = b'\r' ∷ b'\n' ∷ []
header_text (h ∷ hs) = header_line h ++ (b'\n' ∷ header_text hs)

abbrev pub as_read : HeadersMap → HeadersMap
as_read [] = []
as_read ((k, v) ∷ hs) = (k, v ++ (b'\r' ∷ [])) ∷ as_read hs

abbrev pub IsHeader : Text × Text → Type 0
IsHeader (k, v) = Without b':' k × Without b'\n' k × Without b'\n' v

header_line-Without : (h : Text × Text) → IsHeader h → Without b'\n' (header_line h)
header_line-Without (k, v) ok =
    All-append _ k _ ok.1
      (ground arith, (ground arith, All-append _ v (b'\r' ∷ []) ok.2 (ground arith, tt)))

parse_lines-header :
    (h : Text × Text) (ls : List Text) (hs : HeadersMap)
    → IsHeader h
    → parse_lines (header_line h ∷ ls) hs ≡ parse_lines ls (emplace h.0 (h.1 ++ (b'\r' ∷ [])) hs)
unfolding parse_lines
parse_lines-header (k, v) ls hs ok = rw (
  find_text-append b':' (b' ' ∷ []) k (v ++ (b'\r' ∷ [])) ok.0,
  take-append_length k (b':' ∷ b' ' ∷ (v ++ (b'\r' ∷ []))),
  parse_lines,
  drop-append_more k (b':' ∷ b' ' ∷ (v ++ (b'\r' ∷ []))) 2,
)

-- The lines of well-formed headers, up to the empty line, are read as they were written.
pub parse_lines-header_text :
    (gs hs : HeadersMap)
    → All IsHeader gs
    → parse_lines (lines (header_text gs)) hs ≡ emplace_all hs (as_read gs)
parse_lines-header_text [] hs ok = unfold lines parse_lines find_text in refl
parse_lines-header_text (g ∷ gs) hs ok =
    ap (λ ls. parse_lines ls hs)
      (lines-append (header_line g) (header_text gs) (header_line-Without g ok.0))
    ∙ parse_lines-header g (lines (header_text gs)) hs ok.0
    ∙ parse_lines-header_text gs (emplace g.0 (g.1 ++ (b'\r' ∷ [])) hs) ok.1
