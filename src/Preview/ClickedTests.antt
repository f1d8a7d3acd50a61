-- ===== src/Preview/ClickedTests.antt =====
-- A click on a file of the tree at a concrete run.
use isolator_v_wasm_sandbox.Common.{Text, codes, Bool, true, false, some, List, [], ◌∷◌, pos}
use isolator_v_wasm_sandbox.Vfs.{Snapshot}
use isolator_v_wasm_sandbox.Console.{Decoder, Outcome}
use isolator_v_wasm_sandbox.Console.Actions.{Action}
use isolator_v_wasm_sandbox.FileTree.Reducer.{TreeState}
use isolator_v_wasm_sandbox.FileTree.Rows.{Row, file_row, file_text}

abbrev decode_hi : Decoder
decode_hi b64 = some (codes "hi")

abbrev as_is : Text → Text
as_is s = s

-- A run leaves one file, whose row is on the screen.
abbrev left : Snapshot
left = (codes "/hi.txt", codes "aGk=") ∷ []

abbrev one_run : List Action
one_run = Action.run 1000 ∷ Action.end Outcome.complete (some left) (some (pos 0)) ∷ []

abbrev hi_row : Row
hi_row = file_row file_text (codes "hi.txt") (codes "/hi.txt") (some (codes "3 B")) false false 0

abbrev any_order : Text → Text → Bool
any_order a b = true

abbrev no_poller : TreeState
no_poller = record { entries = []; expanded = []; offline = false; vfs_disabled = false }
