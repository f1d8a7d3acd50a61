-- ===== src/Common/Strings.antt =====
-- Text as a list of UTF-16 code units, which is what a JavaScript string is, with the string
-- operations that the components share.
use Prim.Native.Nat.{ℕ, ◌+◌}
use Prim.Native.Char.{code}
use Prim.Native.String.{String}
use mathlib.Core.Path.{◌≡◌, refl}
use mathlib.Core.Logic.{◌↔◌}
use mathlib.Core.Bool.{Bool, true, false, ◌&&◌, ◌||◌}
use mathlib.Core.List.{List, [], ◌∷◌, ◌++◌, map}
use native.Mathlib.Omega.{arith}
use isolator_v_wasm_sandbox.Common.Tests.{◌==◌, leb, if◌then◌else◌}

abbrev pub Text : Type 0
Text = List ℕ

-- A literal of the source. Those that the source walks or compares are ASCII.
abbrev pub codes : String → Text
codes String.[] = []
codes (String.◌∷◌ c s) = code c ∷ codes s

-- `a === b` on strings.
unfoldable pub text_eq : Text → Text → Bool
text_eq [] [] = true
text_eq [] (b ∷ bs) = false
text_eq (a ∷ as') [] = false
text_eq (a ∷ as') (b ∷ bs) = a == b && text_eq as' bs

pub text_eq_iff : (a b : Text) → (text_eq a b ≡ true) ↔ (a ≡ b)
unfolding text_eq
text_eq_iff [] [] = ground arith
text_eq_iff [] (b ∷ bs) = ground arith
text_eq_iff (a ∷ as') [] = ground arith
text_eq_iff (a ∷ as') (b ∷ bs) = ground (arith, text_eq_iff as' bs)

pub text_eq_refl : (a : Text) → text_eq a a ≡ true
text_eq_refl a = (text_eq_iff a a).1 refl

-- `[...].includes(a)` on an array of strings, and `Set.has`.
unfoldable pub includes : List Text → Text → Bool
unfolding text_eq
includes [] a = false
includes (x ∷ xs) a = text_eq x a || includes xs a

-- The truth value of a string: empty is false.
abbrev pub is_truthy : Text → Bool
is_truthy [] = false
is_truthy (c ∷ s) = true

unfoldable pub starts_with : Text → Text → Bool
starts_with s [] = true
starts_with [] (p ∷ ps) = false
starts_with (c ∷ s) (p ∷ ps) = c == p && starts_with s ps

-- The loop of `split`: `cur` is the piece that is being read.
abbrev pub snoc : Text → ℕ → Text
snoc s c = s ++ c ∷ []

unfoldable pub split_from : ℕ → Text → Text → List Text
split_from sep cur [] = cur ∷ []
split_from sep cur (c ∷ s) =
    let next = split_from sep [] s in
    let same = split_from sep (snoc cur c) s in if c == sep then cur ∷ next else same

-- `s.split(sep)` for a separator of one code unit: never empty.
unfoldable pub split : ℕ → Text → List Text
unfolding split_from
split sep s = split_from sep [] s

-- The last piece, and those before it; the default serves no list that `split` returns.
abbrev pub last_or : Text → List Text → Text
last_or d [] = d
last_or d (x ∷ xs) = last_or x xs

abbrev pub init : List Text → List Text
init [] = []
init (x ∷ []) = []
init (x ∷ y ∷ xs) = x ∷ init (y ∷ xs)

-- `toLowerCase`, on ASCII letters. The source compares its results with ASCII words that have no k
-- in them, and no other letter outside ASCII has one ASCII letter as its lower case.
unfoldable pub to_lower_unit : ℕ → ℕ
to_lower_unit c = if leb b'A' c && leb c b'Z' then c + 32 else c

unfoldable pub to_lower_case : Text → Text
unfolding to_lower_unit
to_lower_case s = map to_lower_unit s

-- `path.split(".").pop()?.toLowerCase() ?? ""`
unfoldable pub extension : Text → Text
unfolding split to_lower_case
extension path = to_lower_case (last_or [] (split b'.' path))

-- `path.split("/").pop()`
unfoldable pub base_name : Text → Text
unfolding split
base_name path = last_or [] (split b'/' path)

-- The code units that `trim` takes off: white space and line terminators.
abbrev pub is_space : ℕ → Bool
is_space c =
    (leb 9 c && leb c 13)
    || c == 32
    || c == 160
    || c == 5760
    || (leb 8192 c && leb c 8202)
    || c == 8232
    || c == 8233
    || c == 8239
    || c == 8287
    || c == 12288
    || c == 65279

abbrev pub trim_start : Text → Text
trim_start [] = []
trim_start (c ∷ s) = if is_space c then trim_start s else c ∷ s

abbrev pub is_blank : Text → Bool
is_blank [] = true
is_blank (c ∷ s) = is_space c && is_blank s

abbrev pub trim_end : Text → Text
trim_end [] = []
trim_end (c ∷ s) = if is_blank (c ∷ s) then [] else c ∷ trim_end s

unfoldable pub trim : Text → Text
trim s = trim_end (trim_start s)
