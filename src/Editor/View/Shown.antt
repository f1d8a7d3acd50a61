-- ===== src/Editor/View/Shown.antt =====
-- frontend/components/CodeEditor.tsx: what the editor says about the compilation is so.
use isolator_v_wasm_sandbox.FileTree.Rows.Members.{Elem}
use isolator_v_wasm_sandbox.Common.{
  or_else, ◌++◌, Text, codes, last?, ◌<◌, ◌+◌, ap, length-append, ◌≡◌, ◌↔◌, Bool, true, false, ◌||◌,
  Option, none, some, List, [], ◌∷◌, length, Bool-cases, inl, inr, arith,
}
use isolator_v_wasm_sandbox.Editor.{
  CompileState, CompileResult, CompileError, idle, compiling, success, error, Editor, threw,
  response, Event, compile, settle, is_compiling, handle_compile_and_run, run_all, warnings_of,
}
use isolator_v_wasm_sandbox.Editor.View.{
  spinner, check, alert, result_text, View, render, sends, compile_and_run,
}

-- A result is that of the module that was handed over last.
abbrev Handed : Option CompileResult → List Text → Type 0
Handed none modules = Unit
Handed (some r) modules = last? modules ≡ some r.wasm_b64

abbrev IsHanded : Editor → Type 0
IsHanded e = Handed e.compile_result e.handed_over

-- The answer that a result comes from, and the one that a failure comes from.
abbrev pub Succeeded : CompileResult → Event → Type 0
Succeeded r (settle i (response true b)) =
    (r.wasm_b64 ≡ b.body_wasm)
    × (r.wasm_bytes ≡ b.body_bytes)
    × (r.compile_ms ≡ b.body_compile_ms)
    × (r.warnings ≡ or_else b.body_warnings [])
Succeeded r _ = ⊥

abbrev pub Failed : CompileError → Event → Type 0
Failed x (settle i (threw message)) =
    (x.stderr ≡ codes "Network error: " ++ message) × (x.error_ms ≡ 0)
Failed x (settle i (response false b)) =
    (x.stderr ≡ or_else b.body_stderr (or_else b.body_error (codes "Unknown compilation error")))
    × (x.error_ms ≡ or_else b.body_compile_ms 0)
Failed x _ = ⊥

abbrev ResultFrom : List Event → Option CompileResult → Type 0
ResultFrom vs none = Unit
ResultFrom vs (some r) = (v : Event) × Elem v vs × Succeeded r v

abbrev ErrorFrom : List Event → Option CompileError → Type 0
ErrorFrom vs none = Unit
ErrorFrom vs (some x) = (v : Event) × Elem v vs × Failed x v

-- The outcomes that the editor keeps come from answers among `vs`.
abbrev IsFrom : List Event → Editor → Type 0
IsFrom vs e = ResultFrom vs e.compile_result × ErrorFrom vs e.compile_error

-- What a view says of the editor after the events `vs`, in each state of the compilation.
abbrev pub Says : List Event → CompileState → Editor → View → Type 0
Says vs idle e v =
    (v.badges ≡ []) × (v.run_button.spins ≡ false) × (v.errors ≡ none) × (v.warnings ≡ none)
Says vs compiling e v =
    (v.badges ≡ spinner (codes "compiling…") ∷ [])
    × (v.run_button.spins ≡ true)
    × (v.run_button.disabled ≡ true)
    × (0 < length e.requests)
    × (v.errors ≡ none)
    × (v.warnings ≡ none)
Says vs success e v =
    (r : CompileResult) × (v.badges ≡ check (result_text r) ∷ [])
    × (last? e.handed_over ≡ some r.wasm_b64)
    × (v.run_button.spins ≡ false)
    × (v.errors ≡ none)
    × (v.warnings ≡ warnings_of (some r))
    × ((answer : Event) × Elem answer vs × Succeeded r answer)
Says vs error e v =
    (x : CompileError) × (v.badges ≡ alert (codes "compile failed") ∷ [])
    × (v.run_button.spins ≡ false)
    × (v.errors ≡ some x)
    × (v.warnings ≡ none)
    × ((answer : Event) × Elem answer vs × Failed x answer)

one_more :
    (running : Bool) (e : Editor)
    → (running || is_compiling e.compile_state) ≡ false
    → length (handle_compile_and_run running e).requests ≡ length e.requests + 1
unfolding handle_compile_and_run
one_more running e free = rw free (length-append e.requests (e.source ∷ []))

-- The button is disabled exactly when its handler would leave the editor as it is, and a click on it,
-- which a disabled button ignores, does just what the handler does.
pub render-click :
    (is_mac running : Bool) (default_source : Text) (e : Editor)
    → (((render is_mac running e).run_button.disabled ≡ true)
        ↔ (handle_compile_and_run running e ≡ e))
      × (run_all default_source (sends is_mac running e compile_and_run) e
          ≡ handle_compile_and_run running e)
unfolding render sends handle_compile_and_run run_all
render-click is_mac running default_source e =
    elim (Bool-cases (running || is_compiling e.compile_state)) [
      | inl busy ↦ ((λ _. rw busy, λ _. busy), rw busy)
      | inr free ↦
          let grown = one_more running e free in
          let sent : sends is_mac running e compile_and_run ≡ compile running ∷ [] = rw free in
          let same_size = λ (same : handle_compile_and_run running e ≡ e).
            ap (λ (x : Editor). length x.requests) same in
          (
            (
              λ busy. absurd (cc (busy, free)),
              λ same. absurd (omega (arith, grown, same_size same)),
            ),
            ap (λ (vs : List Event). run_all default_source vs e) sent,
          )
    ]
