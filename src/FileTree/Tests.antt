-- ===== src/FileTree/Tests.antt =====
-- The theorems on frontend/components/VirtualFileTree.tsx at concrete entries and replies.
use mathlib.Core.List.{Perm}
use isolator_v_wasm_sandbox.Common.{
  Ordered, Text, text_eq, codes, ◌≡◌, refl, Bool, true, false, none, some, List, [], ◌∷◌, map,
  filter,
}
use isolator_v_wasm_sandbox.Vfs.{VfsEntry}
use isolator_v_wasm_sandbox.FileTree.{parent_key, file_node, build_tree}
use isolator_v_wasm_sandbox.FileTree.Files.{files_at, build_tree-files}
use isolator_v_wasm_sandbox.FileTree.Poll.{Reply, EntryDoc, Poller}

-- A document that is the list of its entries, with no merge that succeeds.
abbrev plain_doc : EntryDoc
plain_doc = record {
  Doc = List VfsEntry;
  Changes = Unit;
  empty = [];
  write = λ entries doc. entries;
  read = λ doc. doc;
  merge = λ changes doc. none;
  read-write = λ entries doc. refl;
}

abbrev main_file : VfsEntry
main_file = record { path = codes "/src/main.rs"; size = some 12; ghost = none }

abbrev data_file : VfsEntry
data_file = record { path = codes "/output/data.csv"; size = none; ghost = some true }

abbrev before_all : Text → Text → Bool
before_all a b = true

abbrev loaded : Poller plain_doc
loaded = record {
  state = record {
    entries = main_file ∷ [];
    expanded = codes "/src" ∷ [];
    offline = false;
    vfs_disabled = true;
  };
  doc = [];
  first_load = true;
  backoff_ms = 1500;
}

build_tree-files_example :
    (sorted : List VfsEntry) × Perm sorted (main_file ∷ data_file ∷ [])
    × Ordered (λ (a b : VfsEntry). before_all a.path b.path) sorted
    × ((k : Text)
        → files_at k (build_tree before_all (main_file ∷ data_file ∷ []))
          ≡ map file_node (filter (λ e. text_eq (parent_key e) k) sorted))
build_tree-files_example =
    build_tree-files before_all (λ a b h. refl) (λ a b c h k. refl) (main_file ∷ data_file ∷ [])

abbrev two_outages : List Reply
two_outages = Reply.unreachable ∷ Reply.response 500 none ∷ []
