-- ===== src/Preview/Spans.antt =====
-- frontend/components/ComponentRegistry.tsx, `renderInline`: bold, code, links and italics in the text
-- of a block. A text is cut by a regular expression with a group, so the matches stand between the
-- texts around them, and each piece is looked at again by itself.
pub mod Lossless
pub mod Matches
pub mod RoundTrip
mod Tests
use isolator_v_wasm_sandbox.Common.{
  Text, codes, text_eq, snoc, starts_with, ℕ, zero, suc, ◌+◌, ◌-◌, ltb, ◌==◌, Bool, true, false,
  not, ◌&&◌, ◌||◌, Option, none, some, List, [], ◌∷◌, ◌++◌, map, length, take, drop, if◌then◌else◌,
}

-- The length of the longest run of code units other than `stop`, and what comes after it.
abbrev pub run_of : ℕ → Text → ℕ
run_of stop [] = 0
run_of stop (c ∷ s) = if c == stop then 0 else suc (run_of stop s)

-- A run of at least one unit other than `stop`, and then `close`: the length of both.
abbrev pub closed_by : ℕ → Text → Text → Option ℕ
closed_by stop close s =
    let n = run_of stop s in
    if ltb 0 n && starts_with (drop n s) close then some (n + length close) else none

abbrev plus : ℕ → Option ℕ → Option ℕ
plus n none = none
plus n (some m) = some (n + m)

-- `\*\*[^*]+\*\*` and `` `[^`]+` ``, here.
abbrev pub bold_here : Text → Option ℕ
bold_here s =
    if starts_with s (codes "**") then plus 2 (closed_by b'*' (codes "**") (drop 2 s)) else none

abbrev pub code_here : Text → Option ℕ
code_here s =
    if starts_with s (codes "`") then plus 1 (closed_by b'`' (codes "`") (drop 1 s)) else none

abbrev href_after : Text → ℕ → Option ℕ
href_after s n = plus n (closed_by b')' (codes ")") (drop n s))

-- `\[[^\]]+\]\([^)]+\)`, here.
abbrev pub link_here : Text → Option ℕ
link_here s =
    if starts_with s (codes "[")
    then elim (closed_by b']' (codes "](") (drop 1 s)) [
      | none ↦ none
      | some n ↦ href_after s (suc n)
    ]
    else none

abbrev pub first_of : Option ℕ → Option ℕ → Option ℕ
first_of none o = o
first_of (some n) o = some n

-- The length of a match of one of the three, in their order.
unfoldable pub mark_here : Text → Option ℕ
unfolding starts_with
mark_here s = first_of (bold_here s) (first_of (code_here s) (link_here s))

-- `_[^_]+_`, here.
unfoldable pub italic_here : Text → Option ℕ
unfolding starts_with
italic_here s =
    if starts_with s (codes "_") then plus 1 (closed_by b'_' (codes "_") (drop 1 s)) else none

-- `s.split` by an expression that is one group; a match has at least two units. `left` units of a
-- match are still to come, none outside of one, and `cur` is the piece so far.
unfoldable pub pieces : (Text → Option ℕ) → (left : ℕ) → (cur : Text) → Text → List Text
pieces here left cur [] = cur ∷ []
pieces here zero cur (c ∷ s) = elim (here (c ∷ s)) [
  | none ↦ pieces here zero (snoc cur c) s
  | some n ↦ cur ∷ pieces here (n - 1) (c ∷ []) s
]
pieces here (suc zero) cur (c ∷ s) = snoc cur c ∷ pieces here zero [] s
pieces here (suc (suc n)) cur (c ∷ s) = pieces here (suc n) (snoc cur c) s

abbrev pub ends_with : Text → Text → Bool
ends_with t w = text_eq (drop (length t - length w) t) w

-- `t.slice(k, -k)`
abbrev pub inner : ℕ → Text → Text
inner k t = drop k (take (length t - k) t)

-- `.` matches no line terminator.
abbrev pub is_dot : ℕ → Bool
is_dot c = not (c == 10 || c == 13 || c == 8232 || c == 8233)

abbrev pub all_dots : Text → Bool
all_dots [] = true
all_dots (c ∷ s) = is_dot c && all_dots s

-- The text before the first `](` that has a unit before it, and the text after it.
abbrev keep_unit : ℕ → Option (Text × Text) → Option (Text × Text)
keep_unit c none = none
keep_unit c (some (l, r)) = some (c ∷ l, r)

abbrev pub label_split : Text → Option (Text × Text)
label_split [] = none
label_split (c ∷ s) =
    let more = keep_unit c (label_split s) in
    if starts_with s (codes "](") then some (c ∷ [], drop 2 s) else more

abbrev link_parts : Option (Text × Text) → Option (Text × Text)
link_parts none = none
link_parts (some (label, rest)) =
    let href = take (length rest - 1) rest in
    if ends_with rest (codes ")") && ltb 0 (length href) && all_dots label && all_dots href
    then some (label, href)
    else none

-- `tok.match(/^\[(.+?)\]\((.+?)\)$/)`: the first split has the shortest label, and the second group
-- goes on to the end.
unfoldable pub link_of : Text → Option (Text × Text)
unfolding starts_with text_eq
link_of tok = if starts_with tok (codes "[") then link_parts (label_split (drop 1 tok)) else none

-- What is rendered for a piece.
pub data Span : Type 0 where
  plain em : Text → Span

pub data Token : Type 0 where
  strong code : Text → Token
  link : (label href : Text) → Token
  italics : List Span → Token
  text : Text → Token

abbrev pub span_of : Text → Span
span_of p =
    if starts_with p (codes "_") && ends_with p (codes "_") && ltb 2 (length p)
    then em (inner 1 p)
    else plain p

-- One part means that nothing matched.
abbrev pub italics_of : Text → List Text → Token
italics_of tok [] = text tok
italics_of tok (p ∷ []) = text tok
italics_of tok (p ∷ q ∷ ps) = italics (map span_of (p ∷ q ∷ ps))

abbrev link_or_text : Text → Option (Text × Text) → Token
link_or_text tok (some (label, href)) = link label href
link_or_text tok none = italics_of tok (pieces italic_here 0 [] tok)

unfoldable pub token_of : Text → Token
unfolding starts_with text_eq pieces italic_here
token_of tok =
    if starts_with tok (codes "**") && ends_with tok (codes "**")
    then strong (inner 2 tok)
    else if starts_with tok (codes "`") && ends_with tok (codes "`")
    then code (inner 1 tok)
    else link_or_text tok (link_of tok)

unfoldable pub render_inline : Text → List Token
unfolding pieces mark_here token_of
render_inline s = map token_of (pieces mark_here 0 [] s)
