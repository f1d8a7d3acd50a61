-- ===== src/Preview/Spans/Tests.antt =====
-- The inline marks of frontend/components/ComponentRegistry.tsx at concrete texts.
use Prim.{tt}
use isolator_v_wasm_sandbox.Common.{Text, codes, ◌≡◌, refl, List, [], ◌∷◌, arith}
use isolator_v_wasm_sandbox.Preview.Spans.{plain, em, strong, italics, link_of, render_inline}
use isolator_v_wasm_sandbox.Preview.Spans.Matches.{Mark, bold, code_text, link_to}
use isolator_v_wasm_sandbox.Preview.Spans.RoundTrip.{
  print_line, tokens_of_line, render_inline-print_line,
}

abbrev marked_line : List (Mark × Text)
marked_line =
    (bold (codes "now"), codes " or ")
    ∷ (code_text (codes "make"), [])
    ∷ (link_to (codes "docs") (codes "/d"), [])
    ∷ []

printed : print_line (codes "Run ") marked_line ≡ codes "Run **now** or `make`[docs](/d)"
printed = refl

render_inline-print_line_example :
    render_inline (print_line (codes "Run ") marked_line)
    ≡ tokens_of_line (codes "Run ") marked_line
render_inline-print_line_example = render_inline-print_line (codes "Run ") marked_line refl (
  ((refl, omega arith), refl),
  (((refl, omega arith), refl), (((refl, omega arith, refl, omega arith, refl, refl), refl), tt)),
)

-- Two asterisks alone are taken for bold text, and nothing of them is shown.
lost_asterisks : render_inline (codes "**") ≡ strong [] ∷ []
unfolding render_inline
lost_asterisks = refl

-- The middle of a name with underscores is set in italics.
snake_case :
    render_inline (codes "a_b_c")
    ≡ italics (plain (codes "a") ∷ em (codes "b") ∷ plain (codes "c") ∷ []) ∷ []
unfolding render_inline link_of
snake_case = refl
