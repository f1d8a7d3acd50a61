-- ===== src/FileTree/Reducer.antt =====
-- frontend/components/VirtualFileTree.tsx: the reducer of the tree's state.
use isolator_v_wasm_sandbox.Common.{
  Text, text_eq, text_eq_iff, includes, ◌≡◌, refl, Bool, true, false, not, ◌||◌, List, [], ◌∷◌,
  ◌++◌, filter, if◌then◌else◌, arith,
}
use isolator_v_wasm_sandbox.Vfs.{VfsEntry}

-- `expanded` is a set of directory paths, as a list of its members.
pub record TreeState : Type 0 where
  pub entries : List VfsEntry
  pub expanded : List Text
  pub offline : Bool
  pub vfs_disabled : Bool

unfoldable pub initial_state : TreeState
initial_state = record { entries = []; expanded = []; offline = false; vfs_disabled = false }

pub data Action : Type 0 where
  set_entries : List VfsEntry → Action
  toggle_dir : Text → Action
  set_offline : Bool → Action
  set_vfs_disabled : Action

-- `Set.delete` and `Set.add` on a copy.
abbrev delete : Text → List Text → List Text
delete path set = filter (λ p. not (text_eq p path)) set

unfoldable pub toggle : Text → List Text → List Text
toggle path set = if includes set path then delete path set else set ++ path ∷ []

unfoldable pub reducer : TreeState → Action → TreeState
reducer state (set_entries entries) = record state { entries = entries }
reducer state (toggle_dir path) = record state { expanded = toggle path state.expanded }
reducer state (set_offline offline) = record state { offline = offline }
reducer state set_vfs_disabled = record state { vfs_disabled = true }

includes-snoc :
    (set : List Text) (j k : Text) → includes (set ++ j ∷ []) k ≡ (includes set k || text_eq j k)
unfolding includes
includes-snoc [] j k = ground arith
includes-snoc (x ∷ set) j k = ground (arith, includes-snoc set j k)

includes-delete_self : (set : List Text) (k : Text) → includes (delete k set) k ≡ false
unfolding includes
includes-delete_self [] k = refl
includes-delete_self (x ∷ set) k = ground (arith, includes-delete_self set k)

includes-delete_ne :
    (set : List Text) (j k : Text)
    → text_eq j k ≡ false
    → includes (delete j set) k ≡ includes set k
unfolding includes
includes-delete_ne [] j k h = refl
includes-delete_ne (x ∷ set) j k h =
    ground (arith, includes-delete_ne set j k h, text_eq_iff x j, text_eq_iff x k, text_eq_iff j k)

-- Toggling a directory changes whether it is expanded, and no other directory.
pub includes-toggle :
    (j k : Text) (set : List Text)
    → includes (toggle j set) k ≡ (if text_eq j k then not (includes set k) else includes set k)
unfolding toggle
includes-toggle j k set = ground (
  arith,
  includes-snoc set j k,
  includes-delete_self set k,
  includes-delete_ne set j k,
  text_eq_iff j k,
)
