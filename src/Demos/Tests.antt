-- ===== src/Demos/Tests.antt =====
-- The demo programs of frontend/components/ExecutionConsole.tsx at a concrete console.
use isolator_v_wasm_sandbox.Common.{Text, codes, ℕ, length, ◌≡◌, refl, some, List}
use isolator_v_wasm_sandbox.Console.{Console, large, initial, wasm_payload}
use isolator_v_wasm_sandbox.Demos.{noop_bytes}
use isolator_v_wasm_sandbox.Demos.Wasm.{decode}
use isolator_v_wasm_sandbox.Demos.Modules.{IsPayload, wasm_payload-IsPayload}

-- What btoa makes of the smallest demo.
abbrev known_btoa : List ℕ → Text
known_btoa bytes = codes "AGFzbQEAAAABBAFgAAADAgEABwoBBl9zdGFydAAACgQBAgAL"

known_btoa_keeps : decode (known_btoa noop_bytes) ≡ some noop_bytes
unfolding decode
known_btoa_keeps = refl

-- Its comment says 34 bytes.
noop_size : length noop_bytes ≡ 36
noop_size = refl

abbrev printing : Console
unfolding initial
printing = record initial { selected_demo = large }

wasm_payload-IsPayload_example :
    IsPayload known_btoa printing.input_mode printing.custom_wasm_b64 printing.selected_demo
      (wasm_payload printing)
wasm_payload-IsPayload_example = wasm_payload-IsPayload known_btoa known_btoa_keeps printing
