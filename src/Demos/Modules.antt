-- ===== src/Demos/Modules.antt =====
-- frontend/components/ExecutionConsole.tsx: the demo programs as modules.
use isolator_v_wasm_sandbox.Common.{Text, codes, ℕ, ◌≡◌, refl, Option, none, some, List, [], ◌∷◌}
use isolator_v_wasm_sandbox.Console.{
  Console, DemoKey, noop, hello, counter, fibonacci, primes, files, exit1, trap, unicode, longlines,
  large, csv, chart, markdown, svg, Payload, wasm_payload, payload_for, InputMode, demo, editor,
}
use isolator_v_wasm_sandbox.Demos.{noop_bytes, demos, payload_text}
use isolator_v_wasm_sandbox.Demos.Wasm.{Interface, interface, decode}
use isolator_v_wasm_sandbox.Demos.Output.{
  hello_wasm_b64, counter_wasm_b64, fibonacci_wasm_b64, primes_wasm_b64,
}
use isolator_v_wasm_sandbox.Demos.Errors.{
  exit1_wasm_b64, trap_wasm_b64, unicode_wasm_b64, longlines_wasm_b64,
}
use isolator_v_wasm_sandbox.Demos.Large.{large_wasm_b64}
use isolator_v_wasm_sandbox.Demos.Files.{
  files_wasm_b64, csv_wasm_b64, chart_wasm_b64, markdown_wasm_b64,
}
use isolator_v_wasm_sandbox.Demos.Drawing.{svg_wasm_b64}

abbrev wasi : Text → Text × Text
wasi name = (codes "wasi_snapshot_preview1", name)

abbrev command_exports : List (Text × ℕ)
command_exports = (codes "memory", 2) ∷ (codes "_start", 0) ∷ []

-- A program that prints and exits, one that also writes files, and one that does nothing.
abbrev pub printer : Interface
printer = record {
  imports = wasi (codes "fd_write") ∷ wasi (codes "proc_exit") ∷ [];
  exports = command_exports;
}

abbrev pub writer : Interface
writer = record {
  imports =
      wasi (codes "path_open")
      ∷ wasi (codes "fd_write")
      ∷ wasi (codes "fd_close")
      ∷ wasi (codes "proc_exit")
      ∷ [];
  exports = command_exports;
}

abbrev pub idler : Interface
idler = record { imports = []; exports = (codes "_start", 0) ∷ [] }

-- What each program is said to do.
abbrev pub interface_of : DemoKey → Interface
interface_of noop = idler
interface_of files = writer
interface_of csv = writer
interface_of chart = writer
interface_of markdown = writer
interface_of svg = writer
interface_of _ = printer

hello-printer : interface hello_wasm_b64 ≡ some printer
unfolding interface hello_wasm_b64
hello-printer = refl

counter-printer : interface counter_wasm_b64 ≡ some printer
unfolding interface counter_wasm_b64
counter-printer = refl

fibonacci-printer : interface fibonacci_wasm_b64 ≡ some printer
unfolding interface fibonacci_wasm_b64
fibonacci-printer = refl

primes-printer : interface primes_wasm_b64 ≡ some printer
unfolding interface primes_wasm_b64
primes-printer = refl

files-writer : interface files_wasm_b64 ≡ some writer
unfolding interface files_wasm_b64
files-writer = refl

exit1-printer : interface exit1_wasm_b64 ≡ some printer
unfolding interface exit1_wasm_b64
exit1-printer = refl

trap-printer : interface trap_wasm_b64 ≡ some printer
unfolding interface trap_wasm_b64
trap-printer = refl

unicode-printer : interface unicode_wasm_b64 ≡ some printer
unfolding interface unicode_wasm_b64
unicode-printer = refl

longlines-printer : interface longlines_wasm_b64 ≡ some printer
unfolding interface longlines_wasm_b64
longlines-printer = refl

large-printer : interface large_wasm_b64 ≡ some printer
unfolding interface large_wasm_b64
large-printer = refl

csv-writer : interface csv_wasm_b64 ≡ some writer
unfolding interface csv_wasm_b64
csv-writer = refl

chart-writer : interface chart_wasm_b64 ≡ some writer
unfolding interface chart_wasm_b64
chart-writer = refl

markdown-writer : interface markdown_wasm_b64 ≡ some writer
unfolding interface markdown_wasm_b64
markdown-writer = refl

svg-writer : interface svg_wasm_b64 ≡ some writer
unfolding interface svg_wasm_b64
svg-writer = refl

-- A demo program, by its imports and exports.
abbrev pub IsDemo : (List ℕ → Text) → DemoKey → Payload → Type 0
IsDemo btoa key payload = interface (payload_text btoa payload) ≡ some (interface_of key)

-- What is to be run: in editor mode a module that has been compiled and is not empty, and otherwise
-- the selected demo.
abbrev pub IsPayload : (List ℕ → Text) → InputMode → Option Text → DemoKey → Payload → Type 0
IsPayload btoa demo custom key payload = IsDemo btoa key payload
IsPayload btoa editor none key payload = IsDemo btoa key payload
IsPayload btoa editor (some []) key payload = IsDemo btoa key payload
IsPayload btoa editor (some (c ∷ b64)) key payload = payload_text btoa payload ≡ c ∷ b64

module _ (btoa : List ℕ → Text) (kept : decode (btoa noop_bytes) ≡ some noop_bytes) where
  noop-idler : interface (btoa noop_bytes) ≡ some idler
  unfolding interface
  noop-idler = rw kept refl

  demo-interface : (key : DemoKey) → interface (demos btoa key).wasm_b64 ≡ some (interface_of key)
  unfolding demos
  demo-interface noop = noop-idler
  demo-interface hello = hello-printer
  demo-interface counter = counter-printer
  demo-interface fibonacci = fibonacci-printer
  demo-interface primes = primes-printer
  demo-interface files = files-writer
  demo-interface exit1 = exit1-printer
  demo-interface trap = trap-printer
  demo-interface unicode = unicode-printer
  demo-interface longlines = longlines-printer
  demo-interface large = large-printer
  demo-interface csv = csv-writer
  demo-interface chart = chart-writer
  demo-interface markdown = markdown-writer
  demo-interface svg = svg-writer

  payload_for-IsPayload :
      (mode : InputMode) (custom : Option Text) (key : DemoKey)
      → IsPayload btoa mode custom key (payload_for mode custom key)
  unfolding payload_text
  payload_for-IsPayload demo custom key = demo-interface key
  payload_for-IsPayload editor none key = demo-interface key
  payload_for-IsPayload editor (some []) key = demo-interface key
  payload_for-IsPayload editor (some (c ∷ b64)) key = refl

  -- If btoa keeps the bytes of the smallest demo, what any console gives the terminal to run is,
  -- in editor mode and if it is not empty, the text that was compiled, and otherwise base64 of a well-formed sequence of sections of a
  -- WebAssembly module with the imports and exports that the selected demo has: the demos that write
  -- files import path_open, fd_write, fd_close and proc_exit of WASI, the smallest one nothing, the
  -- others fd_write and proc_exit, and all export _start.
  pub wasm_payload-IsPayload :
      (s : Console) → IsPayload btoa s.input_mode s.custom_wasm_b64 s.selected_demo (wasm_payload s)
  unfolding wasm_payload
  wasm_payload-IsPayload s = payload_for-IsPayload s.input_mode s.custom_wasm_b64 s.selected_demo
