-- ===== src/Terminal/Reports.antt =====
-- frontend/components/Terminal.tsx: the reports of whole sessions, and of sessions that are cut off.
use isolator_v_wasm_sandbox.Common.{
  Text, ℕ, ◌≡◌, ◌≢◌, refl, ap, ◌∙◌, true, false, Bool-cases, inl, inr, none, or_else, All, List, [],
  ◌∷◌, ◌++◌, arith, if◌then◌else◌, pos,
}
use isolator_v_wasm_sandbox.Terminal.{Chunk, Report, Terminal}
use isolator_v_wasm_sandbox.Terminal.Socket.{
  Control, throws, null_value, control, is_exit, Event, session_opened, cleaned_up, text_frame,
  socket_closed, react_all,
}
use isolator_v_wasm_sandbox.Terminal.Sessions.{
  Session, session_of, failed, finished, has_message, exit_session, close_session, session_step,
  session_steps, session-react_all,
}

session_steps-append :
    (xs ys : List Event) (s : Session)
    → session_steps (xs ++ ys) s ≡ session_steps ys (session_steps xs s)
session_steps-append [] ys s = refl
session_steps-append (x ∷ xs) ys s = session_steps-append xs ys (session_step x s)

-- The events that belong to the inside of a session: no start or end, and no exit frame.
abbrev pub IsInner : Event → Type 0
IsInner session_opened = ⊥
IsInner cleaned_up = ⊥
IsInner (text_frame (control msg) bytes) = is_exit msg ≡ false
IsInner (socket_closed code reason) = ⊥
IsInner _ = Unit

session_step-IsInner : (e : Event) (s : Session) → IsInner e → session_step e s ≡ s
session_step-IsInner (text_frame (control msg) bytes) s h = rw h
session_step-IsInner session_opened s h = absurd h
session_step-IsInner cleaned_up s h = absurd h
session_step-IsInner (socket_closed code reason) s h = absurd h
session_step-IsInner (text_frame throws bytes) s h = refl
session_step-IsInner (text_frame null_value bytes) s h = refl
session_step-IsInner _ s h = refl

session_steps-All-IsInner :
    (es : List Event) (s : Session) → All IsInner es → session_steps es s ≡ s
session_steps-All-IsInner [] s h = refl
session_steps-All-IsInner (e ∷ es) s (h, hs) =
    session_steps-All-IsInner es (session_step e s) hs ∙ session_step-IsInner e s h

abbrev pub report_of : Control → Report
report_of msg =
    if has_message msg.trap then failed else finished msg.vfs_snapshot (or_else msg.code (pos 0))

-- A whole session: opened, some inner events, an exit frame, more inner events, a close with `code`.
abbrev pub whole_session : List Event → Control → Chunk → List Event → ℕ → Text → List Event
whole_session before msg bytes after code reason =
    session_opened
    ∷ (before ++ (text_frame (control msg) bytes ∷ (after ++ socket_closed code reason ∷ [])))

session_step-exit :
    (msg : Control) (bytes : Chunk) (s : Session)
    → is_exit msg ≡ true
    → session_step (text_frame (control msg) bytes) s ≡ exit_session msg s
session_step-exit msg bytes s h = rw h

module _ (before after : List Event) (msg : Control) (bytes : Chunk) (code : ℕ) (reason : Text)
    (s : Session) (exits : is_exit msg ≡ true) (inner_before : All IsInner before)
    (inner_after : All IsInner after) where
  session_steps-whole_session :
      session_steps (whole_session before msg bytes after code reason) s
      ≡ close_session code (exit_session msg (record s { closing = false }))
  session_steps-whole_session =
      let opened = record s { closing = false } in
      session_steps-append before _ opened
      ∙ ap
          (λ x.
            session_steps
              (text_frame (control msg) bytes ∷ (after ++ socket_closed code reason ∷ [])) x)
          (session_steps-All-IsInner before opened inner_before)
      ∙ ap (session_steps (after ++ socket_closed code reason ∷ []))
          (session_step-exit msg bytes opened exits)
      ∙ session_steps-append after (socket_closed code reason ∷ []) _
      ∙ ap (close_session code) (session_steps-All-IsInner after _ inner_after)

-- From a terminal that holds nothing of an earlier session, a session with an exit frame that is
-- closed with code 1000 is reported exactly once: as an error if the frame has a trap message, and
-- otherwise as complete with the frame's snapshot and its exit code, 0 where it has none. Nothing
-- of it is left for the next session.
pub react_all-whole_session :
    (before after : List Event) (msg : Control) (bytes : Chunk) (reason : Text) (t : Terminal)
    → is_exit msg ≡ true
    → All IsInner before
    → All IsInner after
    → t.vfs_snapshot ≡ none
    → t.has_trap ≡ false
    → session_of (react_all (whole_session before msg bytes after 1000 reason) t) ≡ record {
      closing = false;
      snapshot = none;
      code = none;
      trapped = false;
      told = t.reports ++ report_of msg ∷ [];
    }
react_all-whole_session before after msg bytes reason t x b a no_snapshot no_trap =
    session-react_all _ t
    ∙ session_steps-whole_session before after msg bytes 1000 reason (session_of t) x b a
    ∙ ground arith

-- A trap that was noted in a session whose close handler did not reset the refs makes the next
-- session an error: opened anew and closed with code 1000, it is reported as failed, and without
-- its files and its exit code, whatever its own exit frame says.
pub stale_trap :
    (before after : List Event) (msg : Control) (bytes : Chunk) (reason : Text) (t : Terminal)
    → is_exit msg ≡ true
    → All IsInner before
    → All IsInner after
    → t.has_trap ≡ true
    → (react_all (whole_session before msg bytes after 1000 reason) t).reports
      ≡ t.reports ++ failed ∷ []
stale_trap before after msg bytes reason t x b a trap =
    ap (λ (s : Session). s.told)
      (session-react_all _ t
        ∙ session_steps-whole_session before after msg bytes 1000 reason (session_of t) x b a)
    ∙ ground arith

-- A session that has seen a trap and is then closed with a code other than 1000 is reported as
-- failed, and leaves the trap noted.
pub trap_left_over :
    (before after : List Event) (msg : Control) (bytes : Chunk) (code : ℕ) (reason : Text)
    (t : Terminal)
    → is_exit msg ≡ true
    → has_message msg.trap ≡ true
    → All IsInner before
    → All IsInner after
    → code ≢ 1000
    → ((react_all (whole_session before msg bytes after code reason) t).reports
        ≡ t.reports ++ failed ∷ [])
      × ((react_all (whole_session before msg bytes after code reason) t).has_trap ≡ true)
trap_left_over before after msg bytes code reason t x trap b a other =
    let ends =
      session-react_all _ t
      ∙ session_steps-whole_session before after msg bytes code reason (session_of t) x b a in
    (
      ap (λ (s : Session). s.told) ends ∙ ground arith,
      ap (λ (s : Session). s.trapped) ends ∙ ground arith,
    )

-- The events that do not open a session.
abbrev pub IsNoOpening : Event → Type 0
IsNoOpening session_opened = ⊥
IsNoOpening _ = Unit

session_step-told :
    (e : Event) (s : Session)
    → IsNoOpening e
    → s.closing ≡ true
    → ((session_step e s).told ≡ s.told) × ((session_step e s).closing ≡ true)
session_step-told session_opened s h c = absurd h
session_step-told (text_frame (control msg) bytes) s h c = elim (Bool-cases (is_exit msg)) [
  | inl e ↦ rw e (refl, c)
  | inr e ↦ rw e (refl, c)
]
session_step-told (socket_closed code reason) s h c = rw c (refl, refl)
session_step-told cleaned_up s h c = (refl, refl)
session_step-told (text_frame throws bytes) s h c = (refl, c)
session_step-told (text_frame null_value bytes) s h c = (refl, c)
session_step-told _ s h c = (refl, c)

session_steps-told :
    (es : List Event) (s : Session)
    → All IsNoOpening es
    → s.closing ≡ true
    → (session_steps es s).told ≡ s.told
session_steps-told [] s h c = refl
session_steps-told (e ∷ es) s (h, hs) c =
    let (same, still) = session_step-told e s h c in
    session_steps-told es (session_step e s) hs still ∙ same

-- After a cleanup (Stop, Reset, another session) the parent is told nothing, whatever errors, exit
-- frames and closes still arrive, until a session is opened again.
pub react_all-cleaned_up :
    (es : List Event) (t : Terminal)
    → All IsNoOpening es
    → (react_all (cleaned_up ∷ es) t).reports ≡ t.reports
react_all-cleaned_up es t h =
    ap (λ (s : Session). s.told) (session-react_all (cleaned_up ∷ es) t)
    ∙ session_steps-told es _ h refl
