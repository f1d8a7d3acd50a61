-- ===== src/Demos.antt =====
-- frontend/components/ExecutionConsole.tsx: the demo programs and their registry.
pub mod Wasm
pub mod Output
pub mod Errors
pub mod Large
pub mod Files
pub mod Drawing
pub mod Modules
mod Tests
use isolator_v_wasm_sandbox.Common.{Text, codes, ℕ, List, [], ◌∷◌}
use isolator_v_wasm_sandbox.Console.{
  DemoKey, noop, hello, counter, fibonacci, primes, files, exit1, trap, unicode, longlines, large,
  csv, chart, markdown, svg, Payload, demo_wasm, custom_wasm,
}
use Output.{hello_wasm_b64, counter_wasm_b64, fibonacci_wasm_b64, primes_wasm_b64}
use Errors.{exit1_wasm_b64, trap_wasm_b64, unicode_wasm_b64, longlines_wasm_b64}
use Large.{large_wasm_b64}
use Files.{files_wasm_b64, csv_wasm_b64, chart_wasm_b64, markdown_wasm_b64}
use Drawing.{svg_wasm_b64}

-- The bytes of `NOOP_WASM_B64`.
abbrev pub noop_bytes : List ℕ
noop_bytes =
    0x00 ∷ 0x61 ∷ 0x73 ∷ 0x6d ∷ 0x01 ∷ 0x00 ∷ 0x00 ∷ 0x00 ∷ 0x01 ∷ 0x04 ∷ 0x01 ∷ 0x60 ∷ 0x00 ∷ 0x00
    ∷ 0x03 ∷ 0x02 ∷ 0x01 ∷ 0x00 ∷ 0x07 ∷ 0x0a ∷ 0x01 ∷ 0x06 ∷ 0x5f ∷ 0x73 ∷ 0x74 ∷ 0x61 ∷ 0x72
    ∷ 0x74 ∷ 0x00 ∷ 0x00 ∷ 0x0a ∷ 0x04 ∷ 0x01 ∷ 0x02 ∷ 0x00 ∷ 0x0b ∷ []

pub record Demo : Type 0 where
  pub label : Text
  pub description : Text
  pub wasm_b64 : Text

abbrev demo_of : Text → Text → Text → Demo
demo_of label description wasm_b64 = record {
  label = label;
  description = description;
  wasm_b64 = wasm_b64;
}

-- `DEMOS`; `btoa` is the browser's function, on a text of bytes.
unfoldable pub demos : (List ℕ → Text) → DemoKey → Demo
demos btoa noop = demo_of (codes "noop") (codes "No output — pipeline smoke test") (btoa noop_bytes)
demos btoa hello = demo_of (codes "hello") (codes "Greeting banner + runtime info") hello_wasm_b64
demos btoa counter =
    demo_of (codes "counter") (codes "Count 1→20 (streamed per fd_write call)") counter_wasm_b64
demos btoa fibonacci =
    demo_of (codes "fibonacci") (codes "First 20 Fibonacci numbers") fibonacci_wasm_b64
demos btoa primes =
    demo_of (codes "primes") (codes "Sieve of Eratosthenes up to 100") primes_wasm_b64
demos btoa files =
    demo_of (codes "files") (codes "Writes 2 files to /workspace — tests VFS I/O") files_wasm_b64
demos btoa exit1 =
    demo_of (codes "exit1") (codes "proc_exit(1) — exit code shown in red") exit1_wasm_b64
demos btoa trap =
    demo_of (codes "trap") (codes "WASM unreachable trap — tests crashed state") trap_wasm_b64
demos btoa unicode =
    demo_of (codes "unicode") (codes "Emoji, CJK, Arabic, box-drawing characters") unicode_wasm_b64
demos btoa longlines =
    demo_of (codes "longlines") (codes "~90-char lines — tests wrap/horizontal scroll")
      longlines_wasm_b64
demos btoa large =
    demo_of (codes "large") (codes "300 lines in one write (~9.7 KB buffer)") large_wasm_b64
demos btoa csv =
    demo_of (codes "csv") (codes "Writes sales.csv — tests DataGrid previewer") csv_wasm_b64
demos btoa chart =
    demo_of (codes "chart") (codes "Writes metrics.json — tests ChartView") chart_wasm_b64
demos btoa markdown =
    demo_of (codes "markdown") (codes "Writes readme.md — tests MarkdownViewer") markdown_wasm_b64
demos btoa svg = demo_of (codes "svg") (codes "Writes diagram.svg — tests ImageViewer") svg_wasm_b64

-- The text that the terminal sends for what the console gives it to run.
unfoldable pub payload_text : (List ℕ → Text) → Payload → Text
unfolding demos
payload_text btoa (demo_wasm key) = (demos btoa key).wasm_b64
payload_text btoa (custom_wasm b64) = b64
