-- ===== src/FileTree/Pane.antt =====
-- frontend/components/VirtualFileTree.tsx: which entries are shown, and in which pane.
use isolator_v_wasm_sandbox.Common.{
  Text, is_truthy, Bool, false, Option, none, some, List, [], ◌∷◌, if◌then◌else◌,
}
use isolator_v_wasm_sandbox.Vfs.{VfsEntry}
use isolator_v_wasm_sandbox.FileTree.{Node, children, build_tree}
use isolator_v_wasm_sandbox.FileTree.Reducer.{TreeState}

-- The prop `inlineEntries`, which may be undefined, comes before the entries of the poller.
unfoldable pub display_entries : Option (List VfsEntry) → TreeState → List VfsEntry
display_entries (some (e ∷ es)) state = e ∷ es
display_entries _ state = state.entries

pub data Pane : Type 0 where
  no_session offline_pane disabled_pane shimmer : Pane
  tree_pane : (banner : Bool) → List Node → Pane

abbrev pub empty_pane : TreeState → Pane
empty_pane state =
    if state.offline then offline_pane else if state.vfs_disabled then disabled_pane else shimmer

abbrev pub pane_of : TreeState → List Node → Pane
pane_of state [] = empty_pane state
pane_of state (n ∷ nodes) = tree_pane state.offline (n ∷ nodes)

abbrev pub has_session : Option Text → Bool
has_session none = false
has_session (some id) = is_truthy id

unfoldable pub pane : (Text → Text → Bool) → Option Text → Option (List VfsEntry) → TreeState → Pane
unfolding display_entries
pane le session_id inline_entries state =
    if has_session session_id
    then pane_of state (children [] (build_tree le (display_entries inline_entries state)))
    else no_session
