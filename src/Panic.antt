-- ===== src/Panic.antt =====
-- frontend/components/TerminalErrorBoundary.tsx: the boundary around the terminal, with the console
-- that it reports to.
mod Tests
pub mod View
use isolator_v_wasm_sandbox.Common.{
  Text, codes, split, trim, is_truthy, is_some, ℕ, ◌≡◌, refl, ◌∙◌, Bool, true, false, Option, none,
  some, List, [], ◌∷◌, take, drop, filter, All,
}
use isolator_v_wasm_sandbox.Console.{
  Console, SandboxState, running, crashed, Decoder, handle_crash, handle_reconnect, handle_run,
  after_commit,
}
use isolator_v_wasm_sandbox.Console.Actions.{Action, crash, reconnect, react, step, run_all}

-- An `Error`, as far as it is read.
pub record Failure : Type 0 where
  pub message : Text
  pub stack : Option Text

-- `State`; `error_info` is React's component stack.
pub record Boundary : Type 0 where
  pub has_error : Bool
  pub error : Option Failure
  pub error_info : Option Text

unfoldable pub constructed : Boundary
constructed = record { has_error = false; error = none; error_info = none }

unfoldable pub get_derived_state_from_error : Failure → Boundary → Boundary
get_derived_state_from_error x b = record b { has_error = true; error = some x }

-- The boundary and the console, which gets `onCrash` and `onReconnect`.
pub record Shell : Type 0 where
  pub boundary : Boundary
  pub console : Console

module _ (is_mac : Bool) (decode : Decoder) where
  unfoldable pub component_did_catch : Text → Shell → Shell
  component_did_catch info w = record {
    boundary = record w.boundary { error_info = some info };
    console = step is_mac decode crash w.console;
  }

  -- An error reaches the boundary.
  unfoldable pub caught : Failure → Text → Shell → Shell
  unfolding get_derived_state_from_error component_did_catch
  caught x info w =
      component_did_catch info (record w { boundary = get_derived_state_from_error x w.boundary })

  unfoldable pub reconnect_clicked : Shell → Shell
  unfolding constructed
  reconnect_clicked w = record {
    boundary = constructed;
    console = step is_mac decode reconnect w.console;
  }

  -- Everything else that happens leaves the boundary as it is.
  unfoldable pub acted : List Action → Shell → Shell
  acted as' w = record w { console = run_all is_mac decode as' w.console }

-- The lines of the stack's digest: those that are not blank, from the second to the fourth.
abbrev pub has_text : Text → Bool
has_text l = is_truthy (trim l)

abbrev pub stack_of : Option Failure → Text
stack_of none = []
stack_of (some x) = elim x.stack [ none ↦ [] | some s ↦ s ]

unfoldable pub digest : Option Failure → List Text
unfolding split trim
digest x = take 3 (drop 1 (filter has_text (split b'\n' (stack_of x))))

abbrev pub message_of : Option Failure → Text
message_of none = codes "Unknown error"
message_of (some x) = x.message

pub data Screen : Type 0 where
  children : Screen
  kernel_panic : (message : Text) (call_trace : List Text) → Screen

unfoldable pub render : Boundary → Screen
render b = elim b.has_error [
  | false ↦ children
  | true ↦ kernel_panic (message_of b.error) (digest b.error)
]

module _ (is_mac : Bool) (decode : Decoder) where
  -- A Run from the toolbar does not take the panic screen away: the console says that a session
  -- runs, under a new id, while the terminal that would open its socket is not on the screen.
  pub acted-caught :
      (x : Failure) (info : Text) (now : ℕ) (w : Shell)
      → let after = acted is_mac decode (Action.run now ∷ []) (caught is_mac decode x info w) in
        (render after.boundary ≡ kernel_panic x.message (digest (some x)))
        × (after.console.sandbox_state ≡ running)
  unfolding acted caught render component_did_catch get_derived_state_from_error run_all step react
      handle_run handle_crash after_commit
  acted-caught x info now w = (refl, refl)

  -- Whatever is done in between, Reconnect takes the panic screen away and leaves the console idle
  -- and without a session.
  pub reconnect_clicked-caught :
      (x : Failure) (info : Text) (as' : List Action) (w : Shell)
      → let after =
          reconnect_clicked is_mac decode
            (acted is_mac decode as' (caught is_mac decode x info w)) in
        (render after.boundary ≡ children)
        × (after.console.sandbox_state ≡ SandboxState.idle)
        × (after.console.session_id ≡ none)
  unfolding reconnect_clicked render constructed step handle_reconnect after_commit react
  reconnect_clicked-caught x info as' w = (refl, refl, refl)
