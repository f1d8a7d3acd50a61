-- ===== src/Preview/Markdown/RoundTrip.antt =====
-- frontend/components/ComponentRegistry.tsx, `MarkdownViewer`: blocks that are written out as lines and
-- read again.
use isolator_v_wasm_sandbox.Common.{
  Text, codes, trim, ◌≡◌, false, Option, some, List, [], ◌∷◌, ◌++◌, map, length, All,
}
use isolator_v_wasm_sandbox.Preview.Markdown.{
  Block, code_block, h1, h2, h3, quote, rule, bullets, dot_run, nonempty, is_fence, turn, blocks,
}

abbrev pub bullet_line : Text → Text
bullet_line item = codes "- " ++ item

abbrev pub print : Block → List Text
print (code_block lang body) = (codes "```" ++ lang) ∷ (body ++ codes "```" ∷ [])
print (h1 t) = (codes "# " ++ t) ∷ []
print (h2 t) = (codes "## " ++ t) ∷ []
print (h3 t) = (codes "### " ++ t) ∷ []
print (quote t) = (codes "> " ++ t) ∷ []
print rule = codes "---" ∷ []
print (bullets items) = map bullet_line items
print _ = []

-- Each block is followed by an empty line.
abbrev pub print_all : List Block → List Text
print_all [] = []
print_all (b ∷ bs) = print b ++ [] ∷ print_all bs

-- A heading is not empty and stays on its line; the name of a language has no space around it, and
-- no line of its code closes the block; a list has an item.
abbrev pub IsPrintable : Block → Type 0
IsPrintable (code_block lang body) = (trim lang ≡ lang) × All (λ l. is_fence l ≡ false) body
IsPrintable (h1 t) = nonempty (dot_run t) ≡ some t
IsPrintable (h2 t) = nonempty (dot_run t) ≡ some t
IsPrintable (h3 t) = nonempty (dot_run t) ≡ some t
IsPrintable (bullets (i ∷ items)) = Unit
IsPrintable (quote t) = Unit
IsPrintable rule = Unit
IsPrintable _ = ⊥

-- A turn of the loop reads what was written for a block, up to the empty line.
abbrev Reads : List Text → List Block → List Text → Type 0
Reads [] bs tail = ⊥
Reads (l ∷ ls) bs tail = turn l ls ≡ (bs, tail)

abbrev read_all : List Text → Option (List Block)
read_all ls = blocks (length ls) ls
