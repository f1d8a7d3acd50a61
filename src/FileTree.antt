-- ===== src/FileTree.antt =====
-- frontend/components/VirtualFileTree.tsx: the tree that is built of the file entries.
-- The source links directory objects by reference: `dirMap` and a parent's `children` array hold the
-- same object. Here every array of children stands in one store under the path of its directory,
-- the empty path for the root array, and a directory node names the path under which its own
-- children stand.
mod Tests
pub mod Files
pub mod Reducer
pub mod Poll
pub mod Delays
pub mod Listing
pub mod Pane
pub mod Shown
pub mod Rows
use isolator_v_wasm_sandbox.Common.{
  Text, text_eq, split, last_or, init, ℕ, Bool, true, false, ◌||◌, Option, or_else, List, [], ◌∷◌,
  ◌++◌, if◌then◌else◌, ◌==◌, sort_by,
}
use isolator_v_wasm_sandbox.Vfs.{VfsEntry}

pub data Node : Type 0 where
  file : (name path : Text) (ghost : Bool) (size : Option ℕ) → Node
  dir : (name path : Text) → Node

abbrev pub Store : Type 0
Store = List (Text × List Node)

unfoldable pub has : Text → Store → Bool
has k [] = false
has k ((j, nodes) ∷ s) = text_eq j k || has k s

unfoldable pub children : Text → Store → List Node
children k [] = []
children k ((j, nodes) ∷ s) = if text_eq j k then nodes else children k s

-- `parentChildren.push(node)`, on the array that stands under `k`.
unfoldable pub push : Text → Node → Store → Store
push k n [] = []
push k n ((j, nodes) ∷ s) =
    if text_eq j k then (j, nodes ++ n ∷ []) ∷ s else (j, nodes) ∷ push k n s

-- `cumulativePath + "/" + segment`
abbrev pub join : Text → Text → Text
join parent segment = parent ++ (b'/' ∷ segment)

-- `dirMap.set` of a new directory, and the push of it on its parent's array.
abbrev pub add_dir : Text → Text → Store → Store
add_dir parent segment s =
    push parent (dir segment (join parent segment)) (s ++ (join parent segment, []) ∷ [])

-- One round of the loop over the directory segments.
unfoldable pub enter : Text → Text → Store → Store
enter parent segment s = if has (join parent segment) s then s else add_dir parent segment s

unfoldable pub descend : List Text → Text → Store → Store
descend [] parent s = s
descend (segment ∷ segments) parent s =
    descend segments (join parent segment) (enter parent segment s)

-- `cumulativePath` after the loop.
abbrev pub cumulative : List Text → Text → Text
cumulative [] parent = parent
cumulative (segment ∷ segments) parent = cumulative segments (join parent segment)

-- `path.replace(/^\//, "")`
abbrev pub strip_slash : Text → Text
strip_slash [] = []
strip_slash (c ∷ s) = if c == b'/' then s else c ∷ s

unfoldable pub parts_of : VfsEntry → List Text
parts_of e = split b'/' (strip_slash e.path)

abbrev pub parent_key : VfsEntry → Text
parent_key e = cumulative (init (parts_of e)) []

abbrev pub file_node : VfsEntry → Node
file_node e = file (last_or [] (parts_of e)) e.path (or_else e.ghost false) e.size

unfoldable pub add_entry : VfsEntry → Store → Store
add_entry e s = push (parent_key e) (file_node e) (descend (init (parts_of e)) [] s)

unfoldable pub add_entries : List VfsEntry → Store → Store
add_entries [] s = s
add_entries (e ∷ es) s = add_entries es (add_entry e s)

abbrev pub empty_root : Store
empty_root = ([], []) ∷ []

-- `buildTree`. `le a b` says that `a.localeCompare(b)` is not positive; it is the browser's
-- collation, and the sort is stable.
unfoldable pub build_tree : (Text → Text → Bool) → List VfsEntry → Store
build_tree le entries =
    add_entries (sort_by (λ (a b : VfsEntry). le a.path b.path) entries) empty_root
