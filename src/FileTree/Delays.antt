-- ===== src/FileTree/Delays.antt =====
-- frontend/components/VirtualFileTree.tsx: the delay between two polls.
use isolator_v_wasm_sandbox.Common.{
  ℕ, ◌*◌, ◌^◌, ◌≤◌, min, ◌≡◌, refl, ap, ◌∙◌, Bool, true, false, ◌||◌, ◌&&◌, ◌≢◌, leb, ltb, length,
  map, All, Option, none, some, List, [], ◌∷◌, arith, if_elim,
}
use isolator_v_wasm_sandbox.Common.Backoff.{
  double_capped, iterate, iterate_shift, iterate-double_capped, double_capped_bounds,
}
use isolator_v_wasm_sandbox.FileTree.Poll.{
  EntryDoc, Reply, unreachable, response, FetchResult, ok, failed, poll_max_ms, is_503, is_5xx,
  Poller, apply_remote_entries, on_patch, load, start_session, no_session, mounted, Event, loads,
  patch, session, session_gone, toggled, fetch_vfs_entries, poll_step, poll_all, merged,
}

-- A delay that the poll may have.
abbrev pub InRange : ℕ → Type 0
InRange delay = (1500 ≤ delay) × (delay ≤ poll_max_ms)

double-InRange : (delay : ℕ) → InRange delay → InRange (double_capped poll_max_ms delay)
double-InRange delay h = double_capped_bounds poll_max_ms delay 1500 h.0 h.1

module _ (crdt : EntryDoc) where
  load-InRange :
      (r : FetchResult) (p : Poller crdt)
      → InRange p.backoff_ms
      → InRange (load crdt r p).backoff_ms
  unfolding load apply_remote_entries
  load-InRange (ok entries) p h =
      if_elim (λ (q : Poller crdt). InRange q.backoff_ms) p.first_load _ _ (omega arith)
        (omega arith)
  load-InRange (failed network_error status) p h = ground (arith, double-InRange p.backoff_ms)

  merged-InRange :
      (o : Option (crdt.Doc)) (p : Poller crdt)
      → InRange p.backoff_ms
      → InRange (merged crdt o p).backoff_ms
  merged-InRange none p h = h
  merged-InRange (some doc) p h = h

  poll_step-InRange :
      (e : Event crdt) (p : Poller crdt)
      → InRange p.backoff_ms
      → InRange (poll_step crdt e p).backoff_ms
  unfolding poll_step on_patch start_session no_session
  poll_step-InRange (loads reply) p h = load-InRange (fetch_vfs_entries reply) p h
  poll_step-InRange (patch changes) p h = merged-InRange (crdt.merge changes p.doc) p h
  poll_step-InRange session p h = omega arith
  poll_step-InRange session_gone p h = h
  poll_step-InRange (toggled path) p h = h

  poll_all-InRange_from :
      (es : List (Event crdt)) (p : Poller crdt)
      → InRange p.backoff_ms
      → InRange (poll_all crdt es p).backoff_ms
  unfolding poll_all
  poll_all-InRange_from [] p h = h
  poll_all-InRange_from (e ∷ es) p h =
      poll_all-InRange_from es (poll_step crdt e p) (poll_step-InRange e p h)

  -- Whatever the replies, the other tabs and the user do, and over any number of sessions: the delay
  -- to the next poll stays between 1.5 s and 60 s.
  pub poll_all-InRange :
      (es : List (Event crdt)) → InRange (poll_all crdt es (mounted crdt)).backoff_ms
  unfolding mounted
  poll_all-InRange es = poll_all-InRange_from es (mounted crdt) (omega arith)

  load-outage :
      (network_error : Bool) (status : Option ℕ) (p : Poller crdt)
      → (network_error || is_5xx status) ≡ true
      → is_503 status ≡ false
      → (load crdt (failed network_error status) p).backoff_ms
        ≡ double_capped poll_max_ms p.backoff_ms
  unfolding load
  load-outage network_error status p h k = rw (k, h)

-- A fetch that fails because the orchestrator is unreachable or has a server error: all that throws,
-- and the statuses from 500 on, but not 503.
abbrev pub IsOutage : Reply → Type 0
IsOutage unreachable = Unit
IsOutage (response status body) = (500 ≤ status) × (status ≢ 503)

module _ (crdt : EntryDoc) where
  poll_step-outage :
      (r : Reply) (p : Poller crdt)
      → IsOutage r
      → (poll_step crdt (loads r) p).backoff_ms ≡ double_capped poll_max_ms p.backoff_ms
  unfolding poll_step fetch_vfs_entries
  poll_step-outage unreachable p h = load-outage crdt true none p refl refl
  poll_step-outage (response status body) p h =
      let not_ok : (leb 200 status && ltb status 300) ≡ false = ground arith in
      rw not_ok (load-outage crdt false (some status) p (ground arith) (ground arith))

  outages-iterate :
      (rs : List Reply) (p : Poller crdt)
      → All IsOutage rs
      → (poll_all crdt (map loads rs) p).backoff_ms
        ≡ iterate (length rs) (double_capped poll_max_ms) p.backoff_ms
  unfolding poll_all
  outages-iterate [] p h = refl
  outages-iterate (r ∷ rs) p (h, hs) =
      outages-iterate rs (poll_step crdt (loads r) p) hs
      ∙ ap (iterate (length rs) (double_capped poll_max_ms)) (poll_step-outage r p h)
      ∙ iterate_shift (length rs) (double_capped poll_max_ms) p.backoff_ms

  -- A row of outages doubles the delay each time: after k of them it is 2 ^ k times what it was, up
  -- to 60 s.
  pub outages_double :
      (rs : List Reply) (p : Poller crdt)
      → All IsOutage rs
      → p.backoff_ms ≤ poll_max_ms
      → (poll_all crdt (map loads rs) p).backoff_ms ≡ min (p.backoff_ms * 2 ^ length rs) poll_max_ms
  outages_double rs p h k =
      outages-iterate rs p h ∙ iterate-double_capped (length rs) poll_max_ms p.backoff_ms k
