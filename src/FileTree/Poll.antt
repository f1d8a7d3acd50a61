-- ===== src/FileTree/Poll.antt =====
-- frontend/components/VirtualFileTree.tsx: fetching the file listing, and the poll that does it again
-- and again. The CRDT document that the entries pass through is the third-party Automerge library's:
-- it enters as an interface.
use isolator_v_wasm_sandbox.Common.{
  Text, codes, ℕ, ◌/◌, ◌≡◌, Bool, true, false, ◌&&◌, ◌||◌, Option, none, some, or_else, List, [],
  ◌∷◌, map, if◌then◌else◌, ltb, leb, ◌==◌,
}
use isolator_v_wasm_sandbox.Common.Backoff.{double_capped}
use isolator_v_wasm_sandbox.Vfs.{VfsEntry}
use isolator_v_wasm_sandbox.FileTree.Reducer.{
  TreeState, initial_state, Action, set_entries, toggle_dir, set_offline, set_vfs_disabled, reducer,
}

-- What the fetch meets: `fetch` or its body throws, or a response with a status and, where
-- `res.json()` gives it, a listing.
pub data Reply : Type 0 where
  unreachable : Reply
  response : ℕ → Option (List (Text × ℕ)) → Reply

pub data FetchResult : Type 0 where
  ok : List VfsEntry → FetchResult
  failed : (network_error : Bool) → (status : Option ℕ) → FetchResult

-- `res.ok`
abbrev is_ok : ℕ → Bool
is_ok status = leb 200 status && ltb status 300

abbrev listed : Text × ℕ → VfsEntry
listed (path, size) = record { path = path; size = some size; ghost = none }

abbrev parsed : Option (List (Text × ℕ)) → FetchResult
parsed none = failed true none
parsed (some files) = ok (map listed files)

unfoldable pub fetch_vfs_entries : Reply → FetchResult
fetch_vfs_entries unreachable = failed true none
fetch_vfs_entries (response status body) =
    if is_ok status then parsed body else failed false (some status)

abbrev pub poll_base_ms : ℕ
poll_base_ms = 3000

abbrev pub poll_max_ms : ℕ
poll_max_ms = 60000

-- A document of file entries: `write` is `Automerge.change` with an assignment to `entries`, `merge`
-- is `Automerge.applyChanges`, `none` where it throws. An assignment is what is read afterwards.
pub record EntryDoc : Type 1 where
  pub Doc : Type 0
  pub Changes : Type 0
  pub empty : Doc
  pub write : List VfsEntry → Doc → Doc
  pub read : Doc → List VfsEntry
  pub merge : Changes → Doc → Option Doc
  pub read-write : (entries : List VfsEntry) (doc : Doc) → read (write entries doc) ≡ entries

-- The two tests of the status, `none` for `undefined`.
abbrev pub is_503 : Option ℕ → Bool
is_503 none = false
is_503 (some status) = status == 503

abbrev pub is_5xx : Option ℕ → Bool
is_5xx none = false
is_5xx (some status) = leb 500 status

-- The entry that is written to the document, with its defaults.
abbrev pub with_defaults : VfsEntry → VfsEntry
with_defaults e = record {
  path = e.path;
  size = some (or_else e.size 0);
  ghost = some (or_else e.ghost false);
}

module _ (crdt : EntryDoc) where
  open crdt use {Doc, Changes, empty, write, read, merge}

  -- The component's state, and the variables of the effect's closure.
  pub record Poller : Type 0 where
    pub state : TreeState
    pub doc : Doc
    pub backoff_ms : ℕ
    pub first_load : Bool

  abbrev pub dispatch : Action → Poller → Poller
  dispatch a p = record p { state = reducer p.state a }

  unfoldable pub apply_remote_entries : List VfsEntry → Poller → Poller
  apply_remote_entries incoming p =
      let next = write (map with_defaults incoming) p.doc in
      dispatch (set_entries (read next)) (record p { doc = next })

  -- The message handler for another tab's changes.
  abbrev pub merged : Option Doc → Poller → Poller
  merged none p = p
  merged (some doc) p = dispatch (set_entries (read doc)) (record p { doc = doc })

  unfoldable pub on_patch : Changes → Poller → Poller
  on_patch changes p = merged (merge changes p.doc) p

  abbrev pub expand_once : Poller → Poller
  expand_once p =
      if p.first_load
      then dispatch (toggle_dir (codes "/output"))
          (dispatch (toggle_dir (codes "/src")) (record p { first_load = false }))
      else p

  -- One run of `load` with the result of its fetch; the next run is after `backoff_ms`.
  unfoldable pub load : FetchResult → Poller → Poller
  load (ok entries) p =
      let online = dispatch (set_offline false) (record p { backoff_ms = poll_base_ms / 2 }) in
      expand_once (apply_remote_entries entries online)
  load (failed network_error status) p =
      if is_503 status
      then dispatch set_vfs_disabled (record p { backoff_ms = poll_max_ms })
      else if network_error || is_5xx status
      then dispatch (set_offline true)
          (record p { backoff_ms = double_capped poll_max_ms p.backoff_ms })
      else p

  -- The effect for a session: new variables, and the state that the component already has.
  unfoldable pub start_session : Poller → Poller
  start_session p = record p { backoff_ms = poll_base_ms / 2; first_load = true }

  -- The effect for no session.
  unfoldable pub no_session : Poller → Poller
  no_session p = dispatch (set_entries []) (record p { doc = write [] empty })

  unfoldable pub mounted : Poller
  mounted = record {
    state = initial_state;
    doc = write [] empty;
    backoff_ms = poll_base_ms / 2;
    first_load = true;
  }

  -- What happens to the component, in any order.
  pub data Event : Type 0 where
    loads : Reply → Event
    patch : Changes → Event
    session : Event
    session_gone : Event
    toggled : Text → Event

  unfoldable pub poll_step : Event → Poller → Poller
  poll_step (loads reply) p = load (fetch_vfs_entries reply) p
  poll_step (patch changes) p = on_patch changes p
  poll_step session p = start_session p
  poll_step session_gone p = no_session p
  poll_step (toggled path) p = dispatch (toggle_dir path) p

  unfoldable pub poll_all : List Event → Poller → Poller
  poll_all [] p = p
  poll_all (e ∷ es) p = poll_all es (poll_step e p)
