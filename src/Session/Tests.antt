-- ===== src/Session/Tests.antt =====
-- The console and the terminal in it at concrete runs.
use isolator_v_wasm_sandbox.Common.{
  ◌⊎◌, Text, codes, ℕ, ◌≡◌, refl, ap, ◌∙◌, ◌++◌, true, false, none, some, List, [], ◌∷◌,
}
use isolator_v_wasm_sandbox.Console.{Console, Decoder, editor, after_commit}
use isolator_v_wasm_sandbox.Console.SessionId.{session_id_at}
use isolator_v_wasm_sandbox.Session.Effect.{commit-console, commit-has_error}
use isolator_v_wasm_sandbox.Console.Actions
use isolator_v_wasm_sandbox.Console.Actions.{run, compiled, select_mode}
use isolator_v_wasm_sandbox.Terminal.{execute}
use isolator_v_wasm_sandbox.Session.{
  Connection, opens, closes, Happening, act, arrives, late_closes, wanted, deps_of, step, run_all,
  initial,
}
use isolator_v_wasm_sandbox.Session.Tied.{Ended, run_all-Tied, run_all-runs_compiled}

abbrev btoa_none : List ℕ → Text
btoa_none bytes = []

abbrev undecoded : Decoder
undecoded b64 = none

-- The editor is chosen, and a module has been compiled.
abbrev compiling : List Happening
compiling = act (select_mode editor) ∷ act (compiled 5 (codes "AGFzbQ==")) ∷ []

abbrev module_socket : Connection
module_socket = record { session_id = codes "sess_5"; wasm = codes "AGFzbQ==" }

mode_chosen :
    (Actions.step true undecoded
      (select_mode editor)
      isolator_v_wasm_sandbox.Console.initial).input_mode
    ≡ editor
unfolding Actions.step Actions.react isolator_v_wasm_sandbox.Console.initial after_commit
mode_chosen = refl

calm_there :
    (run_all btoa_none true undecoded (act (select_mode editor) ∷ []) (initial btoa_none)).has_error
    ≡ false
unfolding run_all step initial
calm_there = commit-has_error btoa_none _

mode_there :
    (run_all btoa_none true undecoded
      (act (select_mode editor) ∷ [])
      (initial btoa_none)).console.input_mode
    ≡ editor
unfolding run_all step initial
mode_there = ap (λ (c : Console). c.input_mode) (commit-console btoa_none _) ∙ mode_chosen

socket_there :
    (run_all btoa_none true undecoded compiling (initial btoa_none)).socket ≡ some module_socket
unfolding run_all session_id_at
socket_there =
    run_all-runs_compiled btoa_none true undecoded (act (select_mode editor) ∷ []) 5
      (codes "AGFzbQ==") calm_there mode_there refl

run_all-runs_compiled_example :
    (step btoa_none true undecoded
      (act (compiled 5 (codes "AGFzbQ==")))
      (run_all btoa_none true undecoded (act (select_mode editor) ∷ []) (initial btoa_none))).socket
    ≡ some (record { session_id = session_id_at 5; wasm = codes "AGFzbQ==" })
run_all-runs_compiled_example =
    run_all-runs_compiled btoa_none true undecoded (act (select_mode editor) ∷ []) 5
      (codes "AGFzbQ==") calm_there mode_there refl

run_all-Tied_example :
    let b = run_all btoa_none true undecoded compiling (initial btoa_none) in
    (wanted (deps_of btoa_none b.has_error b.console) ≡ some module_socket)
    × ((step btoa_none true undecoded (arrives (opens false)) b).terminal.sent
        ≡ b.terminal.sent ++ execute (codes "AGFzbQ==") (codes "sess_5") 30000 ∷ [])
    × Ended btoa_none (step btoa_none true undecoded (arrives (closes 1000 [])) b)
    × ((b.closing ≡ 0) ⊎ Ended btoa_none (step btoa_none true undecoded (late_closes 1000 []) b))
run_all-Tied_example =
    run_all-Tied btoa_none true undecoded compiling module_socket 1000 [] socket_there refl
