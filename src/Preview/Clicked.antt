-- ===== src/Preview/Clicked.antt =====
-- frontend/components/ExecutionConsole.tsx, VirtualFileTree.tsx and ComponentRegistry.tsx together: a
-- click on a file of the tree opens the content that the last run left in it.
use isolator_v_wasm_sandbox.Common.{Text, ◌≡◌, Bool, ◌⊎◌, Option, none, some, List, []}
use isolator_v_wasm_sandbox.Vfs.{lookup}
use isolator_v_wasm_sandbox.Console.{Console, Decoder}
use isolator_v_wasm_sandbox.FileTree.Reducer.{TreeState}
use isolator_v_wasm_sandbox.FileTree.Pane.{display_entries}
use isolator_v_wasm_sandbox.FileTree.Rows.{Row, file_row, dir_row, tree_rows}
use isolator_v_wasm_sandbox.FileTree.Rows.Members.{Elem}
use isolator_v_wasm_sandbox.Preview.{Answer}
use isolator_v_wasm_sandbox.Preview.Inline.{shown, expected}

-- The path that a row passes on when it is clicked.
abbrev pub path_of : Row → Text
path_of (file_row icon name path size ghost selected depth) = path
path_of (dir_row name path expanded depth) = path

-- What is on the screen after a click on the row of a file whose content is `b64`: the screen of that
-- content, unless it is empty or cannot be decoded.
abbrev pub Opens : (Text → Text) → Decoder → List Answer → Console → Text → Text → Type 0
Opens encode decode answers s path b64 =
    (b64 ≡ [])
    ⊎ ((decode b64 ≡ none)
        ⊎ ((content : Text) × (decode b64 ≡ some content)
            × (shown encode decode answers path s ≡ expected encode answers path b64 content)))

module _ (encode : Text → Text) (decode : Decoder) (answers : List Answer) (le : Text → Text → Bool)
    (poller : TreeState) (expanded : List Text) (selected : Option Text) (r : Row) where
  -- What a click on the row does, where the console has a snapshot of files.
  abbrev pub OpensRow : Console → Type 0
  OpensRow s =
      (b64 : Text) × (lookup s.inline_vfs_snapshot (path_of r) ≡ some b64)
      × Opens encode decode answers s (path_of r) b64

  abbrev pub IsRowOf : Console → Type 0
  IsRowOf s =
      Elem r (tree_rows le (display_entries (some s.inline_vfs_entries) poller) expanded selected)
