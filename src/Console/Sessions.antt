-- ===== src/Console/Sessions.antt =====
-- frontend/components/ExecutionConsole.tsx: how sessions start, end and are reset.
use isolator_v_wasm_sandbox.Common.{
  Text, codes, ℕ, ◌≡◌, ◌↔◌, ◌⊎◌, inl, inr, refl, text_eq_refl, Bool, true, false, Option, none,
  is_zero, or_else, arith, ℤ, pos,
}
use isolator_v_wasm_sandbox.Console.{
  Console, SandboxState, idle, running, crashed, nonzero, editor, Decoder, Outcome, error,
  demo_wasm, initial, handle_run, handle_compiled, handle_reset, handle_file_select, on_end,
  after_commit, wasm_payload,
}
use isolator_v_wasm_sandbox.Vfs.{Snapshot}
use isolator_v_wasm_sandbox.Console.Keys.{KeyEvent, mod_key, keydown}
use isolator_v_wasm_sandbox.Console.Actions.{
  Action, run, compiled, stop, reset, file_select, crash, reconnect, end, key, react, step,
}

-- Reset brings back the state of a newly mounted console, but for the five cells that are settings
-- of the user: the help overlay, the vitals panel, the demo, the input mode and the compiled module.
pub handle_reset_lem :
    (s : Console)
    → handle_reset s ≡ record initial {
      help_open = s.help_open;
      show_vitals = s.show_vitals;
      selected_demo = s.selected_demo;
      input_mode = s.input_mode;
      custom_wasm_b64 = s.custom_wasm_b64;
    }
unfolding handle_reset initial
handle_reset_lem s = refl

-- The actions that may take a console out of a running session.
abbrev pub MayEnd : Action → Type 0
MayEnd stop = Unit
MayEnd reset = Unit
MayEnd crash = Unit
MayEnd reconnect = Unit
MayEnd (end outcome vfs_snapshot exit_code) = Unit
MayEnd (key now e) = Unit
MayEnd _ = ⊥

-- A running session goes on under every action but Stop, Reset, a crash, a reconnect, the end of
-- the session and a key. Of those that leave it running only a finished compilation gives it
-- another id: a second Run is ignored.
pub step_keeps_running :
    (is_mac : Bool) (decode : Decoder) (a : Action) (s : Console)
    → s.sandbox_state ≡ running
    → MayEnd a
      ⊎ ((step is_mac decode a s).sandbox_state ≡ running)
        × (((step is_mac decode a s).session_id ≡ s.session_id)
            ⊎ ((now : ℕ) × (b : Text) × (a ≡ compiled now b)))
unfolding step react handle_run handle_compiled handle_file_select after_commit
step_keeps_running is_mac decode (compiled now b) s h = inr (refl, inr (now, b, refl))
step_keeps_running is_mac decode (file_select path) s h = inr (ground arith)
step_keeps_running is_mac decode (run now) s h = inr (ground arith)
step_keeps_running is_mac decode stop s h = inl tt
step_keeps_running is_mac decode reset s h = inl tt
step_keeps_running is_mac decode crash s h = inl tt
step_keeps_running is_mac decode reconnect s h = inl tt
step_keeps_running is_mac decode (end o v c) s h = inl tt
step_keeps_running is_mac decode (key now e) s h = inl tt
step_keeps_running is_mac decode _ s h = inr (ground arith)

-- How a session's end is shown: `complete` exactly for a complete outcome whose exit code is 0 or
-- missing, `nonzero` exactly for a complete outcome with another exit code, and `crashed` exactly
-- for an error.
pub on_end_states :
    (o : Outcome) (v : Option Snapshot) (c : Option ℤ) (s : Console)
    → (((on_end o v c s).sandbox_state ≡ SandboxState.complete)
        ↔ ((o ≡ Outcome.complete) × (is_zero (or_else c (pos 0)) ≡ true)))
      × (((on_end o v c s).sandbox_state ≡ nonzero)
          ↔ ((o ≡ Outcome.complete) × (is_zero (or_else c (pos 0)) ≡ false)))
      × (((on_end o v c s).sandbox_state ≡ crashed) ↔ (o ≡ error))
unfolding on_end
on_end_states o v c s = (ground arith, ground arith, ground arith)

keydown-Enter :
    (is_mac : Bool) (now : ℕ) (e : KeyEvent) (s : Console)
    → e.key ≡ codes "Enter"
    → mod_key is_mac e ≡ true
    → e.shift_key ≡ false
    → keydown is_mac now e s ≡ handle_run now s
unfolding keydown
keydown-Enter is_mac now e s k m sh = rw (m, k, sh, text_eq_refl (codes "Enter"))

-- In editor mode, before anything has been compiled, the Run shortcut of the console starts a
-- session at once, and what it runs is the demo that is selected behind the editor.
pub keydown-Enter_in_editor :
    (is_mac : Bool) (now : ℕ) (e : KeyEvent) (s : Console)
    → e.key ≡ codes "Enter"
    → mod_key is_mac e ≡ true
    → e.shift_key ≡ false
    → s.sandbox_state ≡ idle
    → s.input_mode ≡ editor
    → s.custom_wasm_b64 ≡ none
    → ((keydown is_mac now e s).sandbox_state ≡ running)
      × (wasm_payload (keydown is_mac now e s) ≡ demo_wasm s.selected_demo)
unfolding handle_run wasm_payload
keydown-Enter_in_editor is_mac now e s k m sh i ed c =
    rw (keydown-Enter is_mac now e s k m sh) (ground arith)
