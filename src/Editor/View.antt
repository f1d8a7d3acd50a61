-- ===== src/Editor/View.antt =====
-- frontend/components/CodeEditor.tsx: what the editor renders in each state of the compilation.
pub mod Shown
use isolator_v_wasm_sandbox.Common.{
  Text, codes, decimal, to_fixed_1, Bool, true, false, ◌||◌, Option, none, some, List, [], ◌∷◌,
  ◌++◌, if◌then◌else◌, ltb, ℕ,
}
use isolator_v_wasm_sandbox.Editor.{
  CompileState, idle, compiling, success, error, CompileResult, CompileError, Editor, Event,
  compile, reset, change, is_compiling, error_panel, warnings_panel,
}

-- `DEFAULT_SOURCE`
unfoldable pub default_source : Text
default_source =
    codes "fn main() {\n"
    ++ codes "    println!(\"Hello from my custom WASM agent!\");\n"
    ++ codes "\n"
    ++ codes "    // Write a file to the sandbox VFS\n"
    ++ codes "    let data = r#\"{\"status\": \"complete\", \"answer\": 42}\"#;\n"
    ++ codes "    std::fs::create_dir_all(\"/workspace/output\").unwrap();\n"
    ++ codes "    std::fs::write(\"/workspace/output/result.json\", data).unwrap();\n"
    ++ codes "\n"
    ++ codes "    println!(\"Wrote result.json to /workspace/output/\");\n"
    ++ codes "    println!(\"Agent finished successfully.\");\n"
    ++ codes "}\n"

-- The badge of the toolbar: its three places have a badge or none.
pub data Badge : Type 0 where
  spinner : (words : Text) → Badge
  check : (words : Text) → Badge
  alert : (words : Text) → Badge

abbrev pub compiling_badge : CompileState → List Badge
compiling_badge compiling = spinner (codes "compiling…") ∷ []
compiling_badge _ = []

-- React renders nothing for a time that is missing.
abbrev pub ms_text : Option ℕ → Text
ms_text none = []
ms_text (some ms) = decimal ms

abbrev pub result_text : CompileResult → Text
result_text r =
    to_fixed_1 r.wasm_bytes 1024 ++ codes " KB in " ++ ms_text r.compile_ms ++ codes "ms"

abbrev pub success_badge : CompileState → Option CompileResult → List Badge
success_badge success (some r) = check (result_text r) ∷ []
success_badge _ _ = []

abbrev pub error_badge : CompileState → List Badge
error_badge error = alert (codes "compile failed") ∷ []
error_badge _ = []

-- The Compile & Run button.
pub record RunButton : Type 0 where
  pub disabled : Bool
  pub spins : Bool
  pub shortcut : Text

-- The time beside the compiler's output.
abbrev pub error_time_of : Option CompileError → List Text
error_time_of none = []
error_time_of (some x) = if ltb 0 x.error_ms then (decimal x.error_ms ++ codes "ms") ∷ [] else []

pub record View : Type 0 where
  pub badges : List Badge
  pub run_button : RunButton
  pub value : Text
  pub errors : Option CompileError
  pub error_time : List Text
  pub warnings : Option Text

unfoldable pub render : (is_mac running : Bool) → Editor → View
unfolding error_panel warnings_panel
render is_mac running e = record {
  badges =
      compiling_badge e.compile_state
      ++ (success_badge e.compile_state e.compile_result ++ error_badge e.compile_state);
  run_button = record {
    disabled = running || is_compiling e.compile_state;
    spins = is_compiling e.compile_state;
    shortcut = (if is_mac then codes "⌘" else codes "Ctrl") ++ codes "↵";
  };
  value = e.source;
  errors = error_panel e;
  error_time = error_time_of (error_panel e);
  warnings = warnings_panel e;
}

-- What a click on a button, or an edit of the text area, sends to the editor. A disabled button sends
-- nothing.
pub data Control : Type 0 where
  compile_and_run reset_code : Control
  text_area : Text → Control

unfoldable pub sends : (is_mac running : Bool) → Editor → Control → List Event
unfolding render
sends is_mac running e compile_and_run =
    if (render is_mac running e).run_button.disabled then [] else compile running ∷ []
sends is_mac running e reset_code = reset ∷ []
sends is_mac running e (text_area text) = change text ∷ []
