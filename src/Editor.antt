-- ===== src/Editor.antt =====
-- frontend/components/CodeEditor.tsx: the source that is written, the compile request, and the hand
-- over of the module that it returns.
mod Tests
pub mod Laws
pub mod View
use isolator_v_wasm_sandbox.Common.{
  Text, text_eq, codes, is_truthy, or_else, ℕ, ◌+◌, Bool, true, false, ◌||◌, ◌&&◌, Option, none,
  some, List, [], ◌∷◌, ◌++◌, take, drop, length, ltb, suc, if◌then◌else◌,
}

pub data CompileState : Type 0 where
  idle compiling success error : CompileState

pub record CompileResult : Type 0 where
  pub wasm_b64 : Text
  pub wasm_bytes : ℕ
  pub compile_ms : Option ℕ
  pub warnings : Text

pub record CompileError : Type 0 where
  pub stderr : Text
  pub error_ms : ℕ

-- The state of the component, the sources of the requests that have not been answered, the oldest
-- first, and the modules that went to `onCompiled`.
pub record Editor : Type 0 where
  pub source : Text
  pub compile_state : CompileState
  pub compile_result : Option CompileResult
  pub compile_error : Option CompileError
  pub requests : List Text
  pub handed_over : List Text

-- The body of a response, as far as it is read.
pub record Body : Type 0 where
  pub body_stderr : Option Text
  pub body_error : Option Text
  pub body_compile_ms : Option ℕ
  pub body_warnings : Option Text
  pub body_wasm : Text
  pub body_bytes : ℕ

-- What a request meets: it throws, with the message, or a response comes with its `ok` and body.
pub data Reply : Type 0 where
  threw : Text → Reply
  response : Bool → Body → Reply

abbrev pub is_compiling : CompileState → Bool
is_compiling compiling = true
is_compiling _ = false

abbrev pub is_idle : CompileState → Bool
is_idle idle = true
is_idle _ = false

-- The Tab key: four spaces in place of the selection.
unfoldable pub insert_tab : ℕ → ℕ → Editor → Editor
insert_tab start end e = record e {
  source = take start e.source ++ codes "    " ++ drop end e.source;
}

-- The guard and the state that is set before the request goes out.
unfoldable pub handle_compile_and_run : Bool → Editor → Editor
handle_compile_and_run running e = if running || is_compiling e.compile_state then e else record e {
  compile_state = compiling;
  compile_result = none;
  compile_error = none;
  requests = e.requests ++ e.source ∷ [];
}

abbrev pub failure_of : Body → CompileError
failure_of b = record {
  stderr = or_else b.body_stderr (or_else b.body_error (codes "Unknown compilation error"));
  error_ms = or_else b.body_compile_ms 0;
}

abbrev pub result_of : Body → CompileResult
result_of b = record {
  wasm_b64 = b.body_wasm;
  wasm_bytes = b.body_bytes;
  compile_ms = b.body_compile_ms;
  warnings = or_else b.body_warnings [];
}

abbrev pub failed : CompileError → Editor → Editor
failed x e = record e { compile_state = error; compile_error = some x }

abbrev pub compiled : CompileResult → Editor → Editor
compiled r e = record e {
  compile_state = success;
  compile_result = some r;
  handed_over = e.handed_over ++ r.wasm_b64 ∷ [];
}

-- The rest of the handler, after its `await`.
unfoldable pub settled : Reply → Editor → Editor
settled (threw message) e =
    failed (record { stderr = codes "Network error: " ++ message; error_ms = 0 }) e
settled (response true b) e = compiled (result_of b) e
settled (response false b) e = failed (failure_of b) e

unfoldable pub handle_reset : Text → Editor → Editor
handle_reset default_source e = record e {
  source = default_source;
  compile_state = idle;
  compile_result = none;
  compile_error = none;
}

-- The `onChange` of the text area.
unfoldable pub change_source : Text → Editor → Editor
change_source text e =
    let state =
      if is_idle e.compile_state || is_compiling e.compile_state then e.compile_state else idle in
    record e { source = text; compile_state = state }

unfoldable pub initial : Text → Editor
initial default_source = record {
  source = default_source;
  compile_state = idle;
  compile_result = none;
  compile_error = none;
  requests = [];
  handed_over = [];
}

-- The panels below the source: the compiler's output, and the warnings.
unfoldable pub error_panel : Editor → Option CompileError
error_panel e = elim e.compile_state [ error ↦ e.compile_error | _ ↦ none ]

abbrev pub warnings_of : Option CompileResult → Option Text
warnings_of none = none
warnings_of (some r) = if is_truthy r.warnings then some r.warnings else none

unfoldable pub warnings_panel : Editor → Option Text
warnings_panel e = elim e.compile_state [ success ↦ warnings_of e.compile_result | _ ↦ none ]

-- `settle` answers one of the requests that are out, by its place among them.
pub data Event : Type 0 where
  compile : (running : Bool) → Event
  keydown : (mod_key running : Bool) (key : Text) → Event
  tab : ℕ → ℕ → Event
  change : Text → Event
  reset : Event
  settle : ℕ → Reply → Event

abbrev pub settle_at : ℕ → Reply → Editor → Editor
settle_at i reply e =
    if ltb i (length e.requests)
    then settled reply (record e { requests = take i e.requests ++ drop (suc i) e.requests })
    else e

module _ (default_source : Text) where
  unfoldable pub step : Event → Editor → Editor
  unfolding text_eq
  step (compile running) e = handle_compile_and_run running e
  step (keydown mod_key running key) e =
      if mod_key && text_eq key (codes "Enter") then handle_compile_and_run running e else e
  step (tab start end) e = insert_tab start end e
  step (change text) e = change_source text e
  step reset e = handle_reset default_source e
  step (settle i reply) e = settle_at i reply e

  unfoldable pub run_all : List Event → Editor → Editor
  unfolding step
  run_all [] e = e
  run_all (v ∷ vs) e = run_all vs (step v e)
