-- ===== src/FileTree/Listing.antt =====
-- frontend/components/VirtualFileTree.tsx: what a poll makes of a listing, and what stays behind.
use isolator_v_wasm_sandbox.Common.{
  ◌≢◌, ◌≤◌, Text, codes, text_eq, includes, ℕ, ◌≡◌, ◌⊎◌, ◌&&◌, ap, ◌∙◌, Bool, true, false, not,
  ◌||◌, inl, inr, Option, none, some, List, [], ◌∷◌, map, if◌then◌else◌, arith,
}
use isolator_v_wasm_sandbox.Vfs.{VfsEntry}
use isolator_v_wasm_sandbox.FileTree.Reducer.{toggle, reducer, includes-toggle}
use isolator_v_wasm_sandbox.FileTree.Poll.{
  EntryDoc, FetchResult, ok, failed, is_503, is_5xx, Poller, with_defaults, apply_remote_entries,
  on_patch, load, start_session, no_session, Event, loads, patch, session, session_gone, toggled,
  fetch_vfs_entries, poll_step, poll_all, merged,
}

-- The two toggles together, at either of their paths.
once :
    (path : Text) (b : Bool)
    → (path ≡ codes "/src") ⊎ (path ≡ codes "/output")
    → (if text_eq (codes "/output") path
        then not (if text_eq (codes "/src") path then not b else b)
        else if text_eq (codes "/src") path
        then not b
        else b)
      ≡ not b
unfolding text_eq
once path b (inl e) = rw e
once path b (inr e) = rw e

-- What a failed fetch tells: that persistence is disabled, or that the service is out.
abbrev pub IsDisabled : Option ℕ → Type 0
IsDisabled status = status ≡ some 503

abbrev pub IsOut : Bool → Option ℕ → Type 0
IsOut network_error status =
    (status ≢ some 503) × ((network_error ≡ true) ⊎ ((n : ℕ) × (status ≡ some n) × (500 ≤ n)))

module _ (crdt : EntryDoc) where
  -- A listing replaces the entries by its own, with 0 and false for a size and a mark that are not
  -- given, clears the offline mark, and sets the next delay to 1.5 s, half of POLL_BASE_MS. The
  -- mark of disabled persistence stays as it was.
  pub load-ok :
      (entries : List VfsEntry) (p : Poller crdt)
      → ((load crdt (ok entries) p).state.entries ≡ map with_defaults entries)
        × ((load crdt (ok entries) p).state.offline ≡ false)
        × ((load crdt (ok entries) p).backoff_ms ≡ 1500)
        × ((load crdt (ok entries) p).first_load ≡ false)
        × ((load crdt (ok entries) p).state.vfs_disabled ≡ p.state.vfs_disabled)
  unfolding load apply_remote_entries reducer
  load-ok entries p = ground (arith, crdt.read-write (map with_defaults entries) p.doc)

  -- A failed fetch leaves the entries and the expanded directories as they are. It marks the tree
  -- offline exactly if it was offline, or the fetch failed in the network or with a status from 500
  -- on that is not 503; a 503 marks persistence as disabled instead.
  pub load-failed :
      (network_error : Bool) (status : Option ℕ) (p : Poller crdt)
      → let q = load crdt (failed network_error status) p in
        (q.state.entries ≡ p.state.entries)
        × (q.state.expanded ≡ p.state.expanded)
        × (q.state.vfs_disabled ≡ (p.state.vfs_disabled || is_503 status))
        × (q.state.offline
            ≡ (p.state.offline || (not (is_503 status) && (network_error || is_5xx status))))
  unfolding load reducer
  load-failed network_error status p = ground arith

  -- The first listing of each session toggles /src and /output, so it expands them only where they
  -- were collapsed: whatever was expanded in the session before is collapsed.
  pub first_load_toggles :
      (entries : List VfsEntry) (p : Poller crdt) (path : Text)
      → (path ≡ codes "/src") ⊎ (path ≡ codes "/output")
      → includes (load crdt (ok entries) (start_session crdt p)).state.expanded path
        ≡ not (includes p.state.expanded path)
  unfolding load start_session apply_remote_entries reducer
  first_load_toggles entries p path which =
      let src = codes "/src" in
      let output = codes "/output" in
      includes-toggle output path (toggle src p.state.expanded)
      ∙ ap (λ b. if text_eq output path then not b else b)
          (includes-toggle src path p.state.expanded)
      ∙ once path (includes p.state.expanded path) which

  load-vfs_disabled :
      (r : FetchResult) (p : Poller crdt)
      → p.state.vfs_disabled ≡ true
      → (load crdt r p).state.vfs_disabled ≡ true
  load-vfs_disabled (ok entries) p h = let (_, _, _, _, same) = load-ok entries p in same ∙ h
  load-vfs_disabled (failed network_error status) p h =
      let (_, _, same, _) = load-failed network_error status p in same ∙ rw h

  merged-vfs_disabled :
      (o : Option (crdt.Doc)) (p : Poller crdt)
      → p.state.vfs_disabled ≡ true
      → (merged crdt o p).state.vfs_disabled ≡ true
  unfolding reducer
  merged-vfs_disabled none p h = h
  merged-vfs_disabled (some doc) p h = h

  poll_step-vfs_disabled :
      (e : Event crdt) (p : Poller crdt)
      → p.state.vfs_disabled ≡ true
      → (poll_step crdt e p).state.vfs_disabled ≡ true
  unfolding poll_step on_patch start_session no_session reducer
  poll_step-vfs_disabled (loads reply) p h = load-vfs_disabled (fetch_vfs_entries reply) p h
  poll_step-vfs_disabled (patch changes) p h = merged-vfs_disabled (crdt.merge changes p.doc) p h
  poll_step-vfs_disabled session p h = h
  poll_step-vfs_disabled session_gone p h = h
  poll_step-vfs_disabled (toggled path) p h = h

  -- Once persistence has been found disabled, it stays marked so, whatever is polled afterwards and
  -- whichever sessions follow.
  pub poll_all-vfs_disabled :
      (es : List (Event crdt)) (p : Poller crdt)
      → p.state.vfs_disabled ≡ true
      → (poll_all crdt es p).state.vfs_disabled ≡ true
  unfolding poll_all
  poll_all-vfs_disabled [] p h = h
  poll_all-vfs_disabled (e ∷ es) p h =
      poll_all-vfs_disabled es (poll_step crdt e p) (poll_step-vfs_disabled e p h)
