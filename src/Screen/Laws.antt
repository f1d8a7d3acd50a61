-- ===== src/Screen/Laws.antt =====
-- frontend/components/ExecutionConsole.tsx: what the screen says and offers, against what the
-- handlers do.
use Prim.{tt}
use isolator_v_wasm_sandbox.Common.{
  ℕ, ◌≡◌, ◌↔◌, inl, inr, refl, ap, Bool, true, false, some, All-append, List, [], ◌++◌,
  if◌then◌else◌, if_elim, All, arith, Option-cases,
}
use isolator_v_wasm_sandbox.Console.{
  Console, SandboxState, idle, running, crashed, complete, nonzero, preview, demo, editor, Decoder,
  is_running, handle_run, handle_stop,
}
use isolator_v_wasm_sandbox.Console.SessionId.{session_id_at}
use isolator_v_wasm_sandbox.Console.Actions.{run, react}
use isolator_v_wasm_sandbox.Preview.Inline.{props_of}
use isolator_v_wasm_sandbox.Screen.{
  Button, run_button, stop_button, reset_button, toolbar, given, welcome, welcome_buttons, Content,
  component_registry, code_editor, welcome_pane, no_preview, content, render, is_tab,
}

-- What a click leaves behind, as its label says.
abbrev pub Starts : ℕ → Console → Type 0
Starts now s = (s.sandbox_state ≡ running) × (s.session_id ≡ some (session_id_at now))

handle_run-Starts :
    (now : ℕ) (s : Console) → is_running s.sandbox_state ≡ false → Starts now (handle_run now s)
unfolding handle_run
handle_run-Starts now s h = ground arith

-- The buttons of the top pane.
abbrev pub content_buttons : Content → List Button
content_buttons (welcome_pane w) = welcome_buttons w
content_buttons _ = []

module _ (is_mac : Bool) (decode : Decoder) where
  -- A click on a button; a disabled one takes none.
  abbrev pub click : Button → ℕ → Console → Console
  click b now s = if b.disabled then s else react is_mac decode (b.act now) s

  -- The button is disabled exactly when its handler would change nothing.
  abbrev pub IsIdleWhenDisabled : Button → ℕ → Console → Type 0
  IsIdleWhenDisabled b now s = (b.disabled ≡ true) ↔ (react is_mac decode (b.act now) s ≡ s)

  run_idle : (now : ℕ) (s : Console) → IsIdleWhenDisabled (run_button s.sandbox_state) now s
  unfolding run_button react handle_run
  run_idle now s = (λ h. ground arith, λ e. ground (arith, ap (λ (t : Console). t.sandbox_state) e))

  stop_idle : (now : ℕ) (s : Console) → IsIdleWhenDisabled (stop_button s.sandbox_state) now s
  unfolding stop_button react handle_stop
  stop_idle now s =
      (λ h. ground arith, λ e. ground (arith, ap (λ (t : Console). t.sandbox_state) e))

  toolbar_clicks :
      (now : ℕ) (s : Console)
      → All (λ b. click b now s ≡ react is_mac decode (b.act now) s) (toolbar s.sandbox_state)
  unfolding run_button stop_button reset_button react handle_run handle_stop
  toolbar_clicks now s = (ground arith, (ground arith, (refl, tt)))

  -- Run is disabled exactly when its handler would leave the console as it is, and so is Stop; and
  -- for each button of the toolbar a click, which a disabled button ignores, does just what the
  -- handler does.
  pub toolbar-click :
      (now : ℕ) (s : Console)
      → IsIdleWhenDisabled (run_button s.sandbox_state) now s
        × IsIdleWhenDisabled (stop_button s.sandbox_state) now s
        × All (λ b. click b now s ≡ react is_mac decode (b.act now) s) (toolbar s.sandbox_state)
  toolbar-click now s = (run_idle now s, stop_idle now s, toolbar_clicks now s)

  abbrev pub IsStart : ℕ → Console → Button → Type 0
  IsStart now s b =
      (b.act now ≡ run now) → b.disabled ≡ false → Starts now (react is_mac decode (b.act now) s)

  toolbar_starts : (now : ℕ) (s : Console) → All (IsStart now s) (toolbar s.sandbox_state)
  unfolding run_button stop_button reset_button react
  toolbar_starts now s = (λ e h. handle_run-Starts now s h, (λ e h. cc, (λ e h. cc, tt)))

  welcome_starts :
      (state : SandboxState) (now : ℕ) (s : Console)
      → s.sandbox_state ≡ state
      → All (IsStart now s) (welcome_buttons (welcome state s.last_exit_code))
  unfolding welcome welcome_buttons react
  welcome_starts idle now s e = (λ a h. handle_run-Starts now s (ap is_running e), (λ a h. cc, tt))
  welcome_starts running now s e = tt
  welcome_starts crashed now s e = tt
  welcome_starts complete now s e = (λ a h. handle_run-Starts now s (ap is_running e), tt)
  welcome_starts nonzero now s e = (λ a h. handle_run-Starts now s (ap is_running e), tt)

  no_preview_starts : (now : ℕ) (s : Console) → All (IsStart now s) (content_buttons (no_preview s))
  no_preview_starts now s =
      elim s.input_mode
        as (λ m. All (IsStart now s) (
          content_buttons (elim m [
            | editor ↦ code_editor (is_running s.sandbox_state)
            | demo ↦ welcome_pane (welcome s.sandbox_state s.last_exit_code)
          ]))) [ editor ↦ tt | demo ↦ welcome_starts s.sandbox_state now s refl ]

  content_starts : (now : ℕ) (s : Console) → All (IsStart now s) (content_buttons (content s))
  unfolding content
  content_starts now s = elim (Option-cases (given s.preview_file)) [
    | inl e ↦ rw e (no_preview_starts now s)
    | inr (path, e) ↦ rw e (
        if_elim (λ c. All (IsStart now s) (content_buttons c)) (is_tab s.active_tab preview)
          (component_registry (props_of path s)) (no_preview s) tt (no_preview_starts now s))
  ]

  -- Every enabled button of the toolbar and the top pane whose handler is Run starts a session with
  -- the id of the time.
  pub render-IsStart :
      (now : ℕ) (s : Console)
      → All (IsStart now s) ((render s).buttons ++ content_buttons (render s).content)
  unfolding render
  render-IsStart now s =
      All-append (IsStart now s) (toolbar s.sandbox_state) _ (toolbar_starts now s)
        (content_starts now s)
