-- ===== src/Vfs.antt =====
-- The files of a session as the components pass them on: the entries of frontend/components/
-- VirtualFileTree.tsx, and the snapshot of the WebSocket's exit frame.
use isolator_v_wasm_sandbox.Common.{
  Text, text_eq, ℕ, Bool, Option, none, some, List, [], ◌∷◌, if◌then◌else◌,
}

-- `VFSEntry`: a path, an optional size in bytes, an optional mark of an unconfirmed file.
pub record VfsEntry : Type 0 where
  pub path : Text
  pub size : Option ℕ
  pub ghost : Option Bool

-- `Record<string, string>`: path to base64 content, in the order of `Object.entries`.
abbrev pub Snapshot : Type 0
Snapshot = List (Text × Text)

-- `snapshot[path]`, `none` for `undefined`.
unfoldable pub lookup : Snapshot → Text → Option Text
lookup [] k = none
lookup ((j, v) ∷ m) k = if text_eq j k then some v else lookup m k
