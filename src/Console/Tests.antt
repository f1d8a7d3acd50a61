-- ===== src/Console/Tests.antt =====
-- The theorems on frontend/components/ExecutionConsole.tsx at concrete states.
use isolator_v_wasm_sandbox.Common.{codes, true, false, none, some, [], ◌∷◌, pos}
use isolator_v_wasm_sandbox.Console.{
  Console, idle, terminal, hello, editor, Decoder, Outcome, initial,
}
use isolator_v_wasm_sandbox.Console.Actions.{run, end, file_select, run_all}
use isolator_v_wasm_sandbox.Console.Invariant.{Inv, run_all-Inv}

-- A decoder that knows one word.
abbrev decode_hi : Decoder
decode_hi b64 = some (codes "hi")

abbrev writing : Console
writing = record {
  sandbox_state = idle;
  session_id = none;
  active_tab = terminal;
  preview_file = none;
  help_open = false;
  show_vitals = false;
  selected_demo = hello;
  input_mode = editor;
  custom_wasm_b64 = none;
  inline_vfs_entries = [];
  inline_vfs_snapshot = [];
  inline_file_content = none;
  inline_file_b64 = none;
  last_exit_code = pos 0;
}

run_all-Inv_example : Inv (
    run_all true decode_hi
      (run 5
        ∷ end Outcome.complete (some ((codes "/a.txt", codes "aGk=") ∷ [])) none
        ∷ file_select (codes "/a.txt")
        ∷ [])
      initial)
run_all-Inv_example = run_all-Inv true decode_hi _
