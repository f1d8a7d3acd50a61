-- ===== src/Demos/Wasm.antt =====
-- The format of the programs that frontend/components/ExecutionConsole.tsx embeds: base64 (RFC 4648)
-- and the binary format of WebAssembly, as far as the sections, the imports and the exports.
use isolator_v_wasm_sandbox.Common.{
  Text, text_eq, ℕ, zero, suc, ◌+◌, ◌-◌, ◌*◌, ◌/◌, ◌%◌, ltb, leb, ◌==◌, ◌&&◌, Option, none, some,
  List, [], ◌∷◌, ◌++◌, length, take, drop, if◌then◌else◌,
}

unfoldable pub concat : List Text → Text
concat [] = []
concat (t ∷ ts) = t ++ concat ts

infixl 5 ◌>>=◌
abbrev pub ◌>>=◌ : {A B : Type 0} → Option A → (A → Option B) → Option B
none >>= f = none
some a >>= f = f a

-- The value of one of the 64 digits.
unfoldable pub sextet : ℕ → Option ℕ
sextet c =
    if leb b'A' c && leb c b'Z'
    then some (c - b'A')
    else if leb b'a' c && leb c b'z'
    then some (c - b'a' + 26)
    else if leb b'0' c && leb c b'9'
    then some (c - b'0' + 52)
    else if c == b'+'
    then some 62
    else if c == b'/'
    then some 63
    else none

-- Groups of four digits; the end may be padded by one or two signs.
unfoldable pub decode : Text → Option (List ℕ)
unfolding sextet
decode [] = some []
decode (a ∷ b ∷ c ∷ d ∷ s) =
    let rest = decode s in
    let whole : Option (List ℕ) = do
      x ← sextet a
      y ← sextet b
      z ← sextet c
      w ← sextet d
      r ← rest
      some ((x * 4 + y / 16) ∷ (y % 16 * 16 + z / 4) ∷ (z % 4 * 64 + w) ∷ r)
    in let one_sign : Option (List ℕ) = do
      x ← sextet a
      y ← sextet b
      z ← sextet c
      some ((x * 4 + y / 16) ∷ (y % 16 * 16 + z / 4) ∷ [])
      in let two_signs : Option (List ℕ) = do
        x ← sextet a
        y ← sextet b
        some ((x * 4 + y / 16) ∷ [])
        in if c == b'=' && d == b'=' && length s == 0
          then two_signs
          else if d == b'=' && length s == 0
          then one_sign
          else whole
decode _ = none

-- An unsigned LEB128 number, and the bytes after it.
unfoldable pub leb128 : List ℕ → Option (ℕ × List ℕ)
leb128 [] = none
leb128 (b ∷ s) =
    let more : Option (ℕ × List ℕ) = do (n, r) ← leb128 s; some (b - 128 + 128 * n, r)
    in if ltb b 128 then some (b, s) else more

-- Bytes with their number before them.
unfoldable pub sized : List ℕ → Option (List ℕ × List ℕ)
unfolding leb128
sized s = do (n, r) ← leb128 s; if leb n (length r) then some (take n r, drop n r) else none

-- Sections with increasing ids, the last of them up to the end; a module has at most 13.
unfoldable pub sections : (fuel above : ℕ) → List ℕ → Option (List (ℕ × List ℕ))
unfolding sized
sections fuel above [] = some []
sections zero above (id ∷ s) = none
sections (suc fuel) above (id ∷ s) =
    let rest : Option (List (ℕ × List ℕ)) = do
      (body, r) ← sized s
      more ← sections fuel id r
      some ((id, body) ∷ more)
    in if ltb above id then rest else none

-- The magic number and version 1, and the sections.
unfoldable pub parse_module : List ℕ → Option (List (ℕ × List ℕ))
unfolding sections text_eq
parse_module s =
    if text_eq (take 8 s) (0 ∷ 97 ∷ 115 ∷ 109 ∷ 1 ∷ 0 ∷ 0 ∷ 0 ∷ [])
    then sections 13 0 (drop 8 s)
    else none

-- The body of a section; the empty vector if there is none.
unfoldable pub body_of : ℕ → List (ℕ × List ℕ) → List ℕ
body_of id [] = 0 ∷ []
body_of id ((i, body) ∷ more) = if i == id then body else body_of id more

-- Imports of functions: the module, the name, the kind 0 and the index of a type.
unfoldable pub import_names : (left : ℕ) → List ℕ → Option (List (Text × Text))
unfolding sized leb128
import_names zero s = if length s == 0 then some [] else none
import_names (suc n) s = do
  (from, r) ← sized s
  (name, r) ← sized r
  (kind, r) ← leb128 r
  (index, r) ← leb128 r
  more ← import_names n r
  if kind == 0 then some ((from, name) ∷ more) else none

-- Exports: the name, the kind and the index.
unfoldable pub export_names : (left : ℕ) → List ℕ → Option (List (Text × ℕ))
unfolding sized leb128
export_names zero s = if length s == 0 then some [] else none
export_names (suc n) s = do
  (name, r) ← sized s
  (kind, r) ← leb128 r
  (index, r) ← leb128 r
  more ← export_names n r
  some ((name, kind) ∷ more)

-- What a program needs, and what it offers: the names with their kinds, 0 for a function and 2 for a
-- memory.
pub record Interface : Type 0 where
  pub imports : List (Text × Text)
  pub exports : List (Text × ℕ)

unfoldable pub interface : Text → Option Interface
unfolding decode parse_module body_of import_names export_names leb128
interface b64 = do
  bytes ← decode b64
  parts ← parse_module bytes
  (n, imports) ← leb128 (body_of 2 parts)
  names ← import_names n imports
  (m, exports) ← leb128 (body_of 7 parts)
  offers ← export_names m exports
  some (record { imports = names; exports = offers })
