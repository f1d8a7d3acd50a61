-- ===== src/Preview/Markdown.antt =====
-- frontend/components/ComponentRegistry.tsx, `MarkdownViewer`: the blocks that the lines of a document
-- are cut into. What `renderInline` makes of the text of a block stands in Preview.Spans.
pub mod Fuel
pub mod RoundTrip
use isolator_v_wasm_sandbox.Common.{
  Text, codes, split, starts_with, trim, text_eq, is_truthy, is_blank, init, ℕ, zero, suc, Bool,
  true, false, not, ◌&&◌, ◌||◌, leb, ◌==◌, Option, none, some, List, [], ◌∷◌, ◌++◌, map, drop,
  length, all, if◌then◌else◌,
}

pub data Block : Type 0 where
  code_block : (lang : Text) (body : List Text) → Block
  h1 h2 h3 quote paragraph : Text → Block
  rule : Block
  bullets : List Text → Block
  table : List (List Text) → Block
  indented : List Text → Block

-- `.` matches no line terminator.
abbrev pub is_terminator : ℕ → Bool
is_terminator c = c == 10 || c == 13 || c == 8232 || c == 8233

-- The match of `.*` here.
abbrev pub dot_run : Text → Text
dot_run [] = []
dot_run (c ∷ s) = if is_terminator c then [] else c ∷ dot_run s

abbrev pub nonempty : Text → Option Text
nonempty [] = none
nonempty (c ∷ s) = some (c ∷ s)

-- The capture of `^# (.+)` and its like.
abbrev pub heading : Text → Text → Option Text
heading marks line =
    if starts_with line marks then nonempty (dot_run (drop (length marks) line)) else none

-- `/^-{3,}$/` on the line, trimmed.
abbrev pub all_dashes : Text → Bool
all_dashes t = all (λ c. c == b'-') t && leb 3 (length t)

unfoldable pub is_rule : Text → Bool
unfolding trim
is_rule line = all_dashes (trim line)

abbrev pub is_fence : Text → Bool
is_fence line = starts_with line (codes "```")

abbrev pub is_bullet : Text → Bool
is_bullet line = starts_with line (codes "- ")

abbrev pub is_indented : Text → Bool
is_indented line = starts_with line (codes "    ")

-- The lines of a fenced block, and those after the line that closes it.
unfoldable pub fenced : List Text → List Text × List Text
unfolding starts_with
fenced [] = ([], [])
fenced (l ∷ ls) = let more = fenced ls in if is_fence l then ([], ls) else (l ∷ more.0, more.1)

unfoldable pub bullet_items : List Text → List Text × List Text
unfolding starts_with
bullet_items [] = ([], [])
bullet_items (l ∷ ls) =
    let more = bullet_items ls in if is_bullet l then (drop 2 l ∷ more.0, more.1) else ([], l ∷ ls)

-- The pieces between the first bar and the last, trimmed.
unfoldable pub cells_of : Text → List Text
unfolding split trim
cells_of line = map trim (init (drop 1 (split b'|' line)))

-- `/^[-: ]+$/`
abbrev pub is_ruling : Text → Bool
is_ruling c = is_truthy c && all (λ u. u == b'-' || u == b':' || u == b' ') c

abbrev pub add_row : List Text → List (List Text) → List (List Text)
add_row cells rows = if all is_ruling cells then rows else cells ∷ rows

unfoldable pub table_rows : List Text → List (List Text) × List Text
unfolding starts_with
table_rows [] = ([], [])
table_rows (l ∷ ls) =
    let more = table_rows ls in
    if starts_with l (codes "|") then (add_row (cells_of l) more.0, more.1) else ([], l ∷ ls)

abbrev pub first_is_indented : List Text → Bool
first_is_indented [] = false
first_is_indented (l ∷ ls) = is_indented l

unfoldable pub indented_lines : List Text → List Text × List Text
unfolding starts_with
indented_lines [] = ([], [])
indented_lines (l ∷ ls) =
    let more = indented_lines ls in
    if is_indented l || (not (is_truthy l) && first_is_indented ls)
    then (drop 4 l ∷ more.0, more.1)
    else ([], l ∷ ls)

abbrev pub table_of : List (List Text) × List Text → List Block × List Text
table_of ([], rest) = ([], rest)
table_of (r ∷ rs, rest) = (table (r ∷ rs) ∷ [], rest)

-- The tests from the blank line on.
abbrev pub plain_line : Text → List Text → List Block × List Text
plain_line line ls = if is_truthy (trim line) then (paragraph line ∷ [], ls) else ([], ls)

-- The tests from the rule on.
abbrev pub other_line : Text → List Text → List Block × List Text
other_line line ls =
    if is_rule line
    then (rule ∷ [], ls)
    else if starts_with line (codes "> ")
    then (quote (drop 2 line) ∷ [], ls)
    else if is_bullet line
    then (bullets (drop 2 line ∷ (bullet_items ls).0) ∷ [], (bullet_items ls).1)
    else if starts_with line (codes "|")
    then table_of (table_rows (line ∷ ls))
    else if is_indented line
    then (indented (drop 4 line ∷ (indented_lines ls).0) ∷ [], (indented_lines ls).1)
    else plain_line line ls

abbrev pub heading_or :
    (Text → Block) → Option Text → List Text → List Block × List Text → List Block × List Text
heading_or block none ls other = other
heading_or block (some t) ls other = (block t ∷ [], ls)

-- One turn of the loop: the first line and those after it, to the blocks that are pushed and the
-- lines that are left.
unfoldable pub turn : Text → List Text → List Block × List Text
unfolding starts_with
turn line ls =
    if is_fence line
    then (code_block (trim (drop 3 line)) (fenced ls).0 ∷ [], (fenced ls).1)
    else heading_or h1 (heading (codes "# ") line) ls (
        heading_or h2 (heading (codes "## ") line) ls
          (heading_or h3 (heading (codes "### ") line) ls (other_line line ls)))

abbrev pub push_all : List Block → Option (List Block) → Option (List Block)
push_all bs none = none
push_all bs (some rest) = some (bs ++ rest)

-- The loop, on fuel: `none` if it runs out.
unfoldable pub blocks : (fuel : ℕ) → List Text → Option (List Block)
unfolding turn
blocks fuel [] = some []
blocks zero (l ∷ ls) = none
blocks (suc fuel) (l ∷ ls) = push_all (turn l ls).0 (blocks fuel (turn l ls).1)

unfoldable pub markdown : Text → Option (List Block)
unfolding split blocks
markdown content = let lines = split b'\n' content in blocks (length lines) lines
