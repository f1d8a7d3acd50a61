-- ===== src/Console.antt =====
-- frontend/components/ExecutionConsole.tsx: the state that the console component keeps (its
-- `useState` cells), the handlers that change it, and the effect that follows a commit.
-- A handler takes the state of the render that it closes over and returns the next one; the
-- setters that React batches are one record update.
mod Tests
pub mod SessionId
pub mod Keys
pub mod Actions
pub mod Invariant
pub mod Sessions
use isolator_v_wasm_sandbox.Common.{
  Text, codes, is_truthy, extension, includes, ℕ, ◌+◌, ◌*◌, ◌/◌, Bool, true, false, Option, none,
  some, List, [], ◌∷◌, map, length, if◌then◌else◌, ℤ, pos, is_zero, or_else,
}
use isolator_v_wasm_sandbox.Vfs.{VfsEntry, Snapshot, lookup}
use SessionId.{session_id_at}

pub data SandboxState : Type 0 where
  idle running crashed complete nonzero : SandboxState

pub data Tab : Type 0 where
  terminal preview : Tab

pub data InputMode : Type 0 where
  demo editor : InputMode

pub data DemoKey : Type 0 where
  noop hello counter fibonacci primes files exit1 trap unicode longlines large csv chart : DemoKey
  markdown svg : DemoKey

pub record Console : Type 0 where
  pub sandbox_state : SandboxState
  pub session_id : Option Text
  pub active_tab : Tab
  pub preview_file : Option Text
  pub help_open : Bool
  pub show_vitals : Bool
  pub selected_demo : DemoKey
  pub input_mode : InputMode
  pub custom_wasm_b64 : Option Text
  pub inline_vfs_entries : List VfsEntry
  pub inline_vfs_snapshot : Snapshot
  pub inline_file_content : Option Text
  pub inline_file_b64 : Option Text
  pub last_exit_code : ℤ

unfoldable pub initial : Console
initial = record {
  sandbox_state = idle;
  session_id = none;
  active_tab = terminal;
  preview_file = none;
  help_open = false;
  show_vitals = false;
  selected_demo = hello;
  input_mode = demo;
  custom_wasm_b64 = none;
  inline_vfs_entries = [];
  inline_vfs_snapshot = [];
  inline_file_content = none;
  inline_file_b64 = none;
  last_exit_code = pos 0;
}

-- `sandboxState === "running"`
abbrev pub is_running : SandboxState → Bool
is_running running = true
is_running _ = false

abbrev start : ℕ → Console → Console
start now s = record s {
  session_id = some (session_id_at now);
  sandbox_state = running;
  active_tab = terminal;
}

-- `now` is `Date.now()`.
unfoldable pub handle_run : ℕ → Console → Console
handle_run now s = if is_running s.sandbox_state then s else start now s

unfoldable pub handle_compiled : ℕ → Text → Console → Console
handle_compiled now wasm_b64 s = start now (record s { custom_wasm_b64 = some wasm_b64 })

unfoldable pub handle_stop : Console → Console
handle_stop s = if is_running s.sandbox_state then record s { sandbox_state = idle } else s

unfoldable pub handle_reset : Console → Console
handle_reset s = record s {
  sandbox_state = idle;
  session_id = none;
  preview_file = none;
  active_tab = terminal;
  inline_vfs_entries = [];
  inline_vfs_snapshot = [];
  inline_file_content = none;
  inline_file_b64 = none;
  last_exit_code = pos 0;
}

-- The extensions that `handleFileSelect` keeps in base64.
abbrev pub image_extensions : List Text
image_extensions =
    codes "png"
    ∷ codes "jpg"
    ∷ codes "jpeg"
    ∷ codes "gif"
    ∷ codes "webp"
    ∷ codes "svg"
    ∷ codes "ico"
    ∷ codes "bmp"
    ∷ []

unfoldable pub is_image : Text → Bool
unfolding includes extension
is_image path = includes image_extensions (extension path)

-- The browser's `atob` followed by `TextDecoder.decode`; `none` where `atob` throws.
abbrev pub Decoder : Type 0
Decoder = Text → Option Text

abbrev clear_inline : Console → Console
clear_inline s = record s { inline_file_content = none; inline_file_b64 = none }

-- The branch that is taken when the snapshot has content for the path.
abbrev show_inline : Decoder → Text → Text → Console → Console
show_inline decode path b64 s =
    if is_image path
    then record s { inline_file_b64 = some b64; inline_file_content = none }
    else record s { inline_file_b64 = none; inline_file_content = decode b64 }

unfoldable pub handle_file_select : Decoder → Text → Console → Console
unfolding lookup
handle_file_select decode path s =
    let opened = record s { preview_file = some path; active_tab = preview } in
    let b64 : Text = or_else (lookup s.inline_vfs_snapshot path) [] in
    if is_truthy b64 then show_inline decode path b64 opened else clear_inline opened

unfoldable pub handle_crash : Console → Console
handle_crash s = record s { sandbox_state = crashed }

unfoldable pub handle_reconnect : Console → Console
handle_reconnect s = record s { sandbox_state = idle; session_id = none }

-- The first argument of `onEnd`.
pub data Outcome : Type 0 where
  complete error : Outcome

-- `Math.round(b64.length * 0.75)`: three quarters is exact in binary, and ties round up.
unfoldable pub estimated_size : Text → ℕ
estimated_size b64 = (3 * length b64 + 2) / 4

unfoldable pub entry_of : Text × Text → VfsEntry
unfolding estimated_size
entry_of (path, b64) = record { path = path; size = some (estimated_size b64); ghost = none }

abbrev exit_state : ℤ → SandboxState
exit_state code = if is_zero code then SandboxState.complete else nonzero

abbrev end_state : Outcome → Option ℤ → Console → Console
end_state error exit_code s = record s { sandbox_state = crashed }
end_state Outcome.complete exit_code s =
    let code : ℤ = or_else exit_code (pos 0) in
    record s { last_exit_code = code; sandbox_state = exit_state code }

-- The snapshot is stored only if it is there and has a file.
abbrev store_snapshot : Option Snapshot → Console → Console
store_snapshot none s = s
store_snapshot (some []) s = s
store_snapshot (some (file ∷ more)) s = record s {
  inline_vfs_snapshot = file ∷ more;
  inline_vfs_entries = map entry_of (file ∷ more);
}

-- The `onEnd` callback that the console hands to the terminal.
unfoldable pub on_end : Outcome → Option Snapshot → Option ℤ → Console → Console
on_end outcome vfs_snapshot exit_code s =
    store_snapshot vfs_snapshot (end_state outcome exit_code s)

-- The effect on `[sandboxState]` that follows a commit: the vitals panel opens with a session.
unfoldable pub after_commit : Console → Console
after_commit s = if is_running s.sandbox_state then record s { show_vitals = true } else s

-- What the terminal is given to run: `wasmB64`.
pub data Payload : Type 0 where
  demo_wasm : DemoKey → Payload
  custom_wasm : Text → Payload

abbrev custom_or_demo : Option Text → DemoKey → Payload
custom_or_demo none key = demo_wasm key
custom_or_demo (some b64) key = if is_truthy b64 then custom_wasm b64 else demo_wasm key

abbrev pub payload_for : InputMode → Option Text → DemoKey → Payload
payload_for editor custom key = custom_or_demo custom key
payload_for demo custom key = demo_wasm key

unfoldable pub wasm_payload : Console → Payload
wasm_payload s = payload_for s.input_mode s.custom_wasm_b64 s.selected_demo
