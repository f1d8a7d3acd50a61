-- ===== src/Preview/Log.antt =====
-- frontend/components/ComponentRegistry.tsx, `LogViewer`: the lines of a log without the terminal's
-- colours, each in the colour of its level.
pub mod Stripping
use isolator_v_wasm_sandbox.Common.{
  Text, codes, split, starts_with, to_lower_case, ℕ, zero, suc, ◌+◌, Bool, true, false, ◌&&◌, ◌||◌,
  leb, ◌==◌, Option, none, some, List, [], ◌∷◌, map, if◌then◌else◌,
}

-- `[0-9;]`
abbrev pub is_parameter : ℕ → Bool
is_parameter c = (leb b'0' c && leb c b'9') || c == b';'

abbrev pub add_one : Option ℕ → Option ℕ
add_one none = none
add_one (some n) = some (suc n)

-- The length of a match of `[0-9;]*m` here.
abbrev pub parameters : Text → Option ℕ
parameters [] = none
parameters (c ∷ s) =
    let more = parameters s in
    if is_parameter c then add_one more else if c == b'm' then some 1 else none

-- The length of a match of `\[[0-9;]*m` here.
abbrev pub sequence : Text → Option ℕ
sequence [] = none
sequence (c ∷ s) = if c == b'[' then add_one (parameters s) else none

abbrev pub escape : ℕ
escape = 27

-- The length of the rest of an escape sequence that starts with c.
abbrev pub rest_of_sequence : ℕ → Text → Option ℕ
rest_of_sequence c s = if c == escape then sequence s else none

-- The global replacement; `skipped` code units are left of the match that is being taken out.
unfoldable pub strip_from : (skipped : ℕ) → Text → Text
strip_from skipped [] = []
strip_from (suc n) (c ∷ s) = strip_from n s
strip_from zero (c ∷ s) =
    let kept = c ∷ strip_from zero s in
    elim (rest_of_sequence c s) [ none ↦ kept | some n ↦ strip_from n s ]

unfoldable pub strip_ansi : Text → Text
unfolding strip_from
strip_ansi s = strip_from zero s

-- `l.includes(word)` on a string.
unfoldable pub contains : Text → Text → Bool
unfolding starts_with
contains [] word = starts_with [] word
contains (c ∷ s) word = starts_with (c ∷ s) word || contains s word

pub data LogColor : Type 0 where
  danger warn muted secondary : LogColor

abbrev pub color_of : Text → LogColor
color_of l =
    if contains l (codes "error") || contains l (codes "fatal") || contains l (codes "panic")
    then danger
    else if contains l (codes "warn")
    then warn
    else if contains l (codes "debug")
    then muted
    else secondary

unfoldable pub log_line_color : Text → LogColor
log_line_color line = color_of (to_lower_case line)

-- The lines with their colours.
abbrev pub log_line : Text → Text × LogColor
log_line line = (strip_ansi line, log_line_color (strip_ansi line))

unfoldable pub log_lines : Text → List (Text × LogColor)
unfolding split
log_lines content = map log_line (split b'\n' content)
