-- ===== src/Session/Tied.antt =====
-- frontend/components/ExecutionConsole.tsx with frontend/components/Terminal.tsx: the socket that is
-- open goes with what the console shows.
use isolator_v_wasm_sandbox.Common.{
  if◌then◌else◌, Text, is_truthy, ℕ, ◌≡◌, refl, sym, ap, ◌∙◌, Bool, true, false, Option, none, some,
  is_some, List, [], ◌∷◌, ◌++◌, drop-length, ◌==◌, arith, Bool-cases, if_elim, zero, suc, ◌⊎◌, inl,
  inr,
}
use isolator_v_wasm_sandbox.Console.{
  Console, Decoder, is_running, after_commit, wasm_payload, on_end,
}
use isolator_v_wasm_sandbox.Console.{editor, handle_compiled}
use isolator_v_wasm_sandbox.Console.SessionId.{session_id_at}
use isolator_v_wasm_sandbox.Console.Actions
use isolator_v_wasm_sandbox.Console.Actions.{compiled}
use isolator_v_wasm_sandbox.Demos.{payload_text}
use mathlib.Core.Path.{subst}
use isolator_v_wasm_sandbox.Terminal.{Report, Terminal, execute, writeln}
use isolator_v_wasm_sandbox.Terminal.Socket.{
  on_open, Event, xterm_loaded, animation_frame, socket_closed, react,
}
use isolator_v_wasm_sandbox.Terminal.Sessions.{
  Session, session_of, failed, closing_report, session-react,
}
use isolator_v_wasm_sandbox.Terminal.EndToEnd.{deliver}
use isolator_v_wasm_sandbox.Session.{
  late, remounted, panics, reconnects, of_boundary, late_closes, Connection, Bench, Incoming, opens,
  closes, Happening, act, arrives, loads, draws, wanted, told, deps_of, commit, arrive, step,
  run_all, initial,
}
use isolator_v_wasm_sandbox.Session.Effect.{
  IsTied, IsHandled, react-intentional, told-IsOpen, commit-console, commit-IsTied, commit-sent,
  arrive-IsTied, late-IsTied, IsOpen, commit-has_error,
}

if_true :
    {A : Type 0} (P : A → Type 0) (b : Bool) (x y : A)
    → (b ≡ true → P x)
    → P y
    → P (if b then x else y)
if_true P true x y h k = h refl
if_true P false x y h k = k

module _ (btoa : List ℕ → Text) (is_mac : Bool) (decode : Decoder) where
  same_terminal-IsTied :
      (e : Event) (b : Bench)
      → IsHandled e
      → IsTied btoa b
      → IsTied btoa (record b { terminal = react e b.terminal })
  same_terminal-IsTied e b h t = record {
    is_open = record {
      asked = t.is_open.asked;
      heard = λ s. react-intentional e b.terminal h ∙ t.is_open.heard s;
    };
    current = t.current;
  }

  -- While the panic screen is shown there is no socket.
  remounted-IsOpen :
      (b : Bench) → b.has_error ≡ true → IsTied btoa b → IsOpen (remounted is_mac decode b)
  unfolding wanted deps_of
  remounted-IsOpen b e t =
      let none_there : b.socket ≡ none = t.is_open.asked ∙ ap wanted t.current ∙ rw e in
      record { asked = t.is_open.asked; heard = λ s. absurd (cc (none_there, s)) }

  step-IsTied :
      (h : Happening) (b : Bench) → IsTied btoa b → IsTied btoa (step btoa is_mac decode h b)
  unfolding step
  step-IsTied (act a) b t =
      if_elim (IsTied btoa) (of_boundary a) b _ t
        (commit-IsTied btoa _ (record { asked = t.is_open.asked; heard = t.is_open.heard }))
  step-IsTied (arrives i) b t = arrive-IsTied btoa b.socket i b t
  step-IsTied (late_closes code reason) b t = late-IsTied btoa b.closing code reason b t
  step-IsTied panics b t =
      if_elim (IsTied btoa) b.has_error b _ t
        (commit-IsTied btoa _ (record { asked = t.is_open.asked; heard = t.is_open.heard }))
  step-IsTied reconnects b t =
      if_true (IsTied btoa) b.has_error _ b
        (λ e. commit-IsTied btoa (remounted is_mac decode b) (remounted-IsOpen b e t)) t
  step-IsTied loads b t = same_terminal-IsTied xterm_loaded b tt t
  step-IsTied draws b t = same_terminal-IsTied animation_frame b tt t

  run_all-IsTied_from :
      (hs : List Happening) (b : Bench)
      → IsTied btoa b
      → IsTied btoa (run_all btoa is_mac decode hs b)
  unfolding run_all
  run_all-IsTied_from [] b t = t
  run_all-IsTied_from (h ∷ hs) b t =
      run_all-IsTied_from hs (step btoa is_mac decode h b) (step-IsTied h b t)

  run_all-IsTied :
      (hs : List Happening) → IsTied btoa (run_all btoa is_mac decode hs (initial btoa))
  unfolding initial wanted deps_of isolator_v_wasm_sandbox.Console.initial
  run_all-IsTied hs =
      run_all-IsTied_from hs _
        (record { is_open = record { asked = refl; heard = λ s. absurd (cc s) }; current = refl })

on_end-stops :
    (r : Report) (c : Console) → is_running (after_commit (deliver r c)).sandbox_state ≡ false
unfolding on_end after_commit
on_end-stops r c = ground arith

closed-reports :
    (code : ℕ) (reason : Text) (t : Terminal)
    → t.intentional_close ≡ false
    → (r : Report) × ((react (socket_closed code reason) t).reports ≡ t.reports ++ r ∷ [])
closed-reports code reason t h =
    let told = ap (λ (s : Session). s.told) (session-react (socket_closed code reason) t) in
    elim (Bool-cases (code == 1000)) [
      | inl e ↦ (closing_report (session_of t), told ∙ rw (h, e))
      | inr e ↦ (failed, told ∙ rw (h, e))
    ]

told_closed-stops :
    (code : ℕ) (reason : Text) (b : Bench)
    → b.terminal.intentional_close ≡ false
    → is_running (told (socket_closed code reason) b).console.sandbox_state ≡ false
unfolding told
told_closed-stops code reason b h =
    let (r, one) = closed-reports code reason b.terminal h in
    rw (one, drop-length b.terminal.reports (r ∷ [])) (on_end-stops r b.console)

module _ (btoa : List ℕ → Text) where
  -- The session is over: no socket, and the console does not say that it runs.
  abbrev pub Ended : Bench → Type 0
  Ended b = (b.socket ≡ none) × (is_running b.console.sandbox_state ≡ false)

  tied-socket : (b : Bench) → IsTied btoa b → b.socket ≡ wanted (deps_of btoa b.has_error b.console)
  tied-socket b t = t.is_open.asked ∙ ap wanted t.current

  stopped-Ended : (b : Bench) → IsTied btoa b → is_running b.console.sandbox_state ≡ false → Ended b
  unfolding wanted deps_of
  stopped-Ended b t h = (tied-socket b t ∙ ground (arith, h), h)

  closed-Ended :
      (code : ℕ) (reason : Text) (b : Bench)
      → IsOpen b
      → is_some b.socket ≡ true
      → Ended (commit btoa (told (socket_closed code reason) b))
  closed-Ended code reason b t h =
      let x = told (socket_closed code reason) b in
      stopped-Ended (commit btoa x)
        (commit-IsTied btoa x (told-IsOpen (socket_closed code reason) b tt t))
        (ap (λ (c : Console). is_running c.sandbox_state) (commit-console btoa x)
          ∙ told_closed-stops code reason b (t.heard h))

  late-Ended :
      (n code : ℕ) (reason : Text) (b : Bench)
      → IsOpen b
      → is_some b.socket ≡ true
      → (n ≡ 0) ⊎ Ended (late btoa n code reason b)
  late-Ended zero code reason b t h = inl refl
  late-Ended (suc n) code reason b t h = inr (
      closed-Ended code reason (record b { closing = n })
        (record { asked = t.asked; heard = t.heard }) h)

  arrive-Ended :
      (k : Connection) (code : ℕ) (reason : Text) (b : Bench)
      → IsOpen b
      → is_some b.socket ≡ true
      → Ended (arrive btoa (some k) (closes code reason) b)
  arrive-Ended k code reason b t h =
      closed-Ended code reason (record b { ended = true })
        (record { asked = t.asked; heard = t.heard }) h

  opens-sent :
      (k : Connection) (b : Bench)
      → is_truthy k.wasm ≡ true
      → (arrive btoa (some k) (opens false) b).terminal.sent
        ≡ b.terminal.sent ++ execute k.wasm k.session_id 30000 ∷ []
  unfolding told react on_open writeln
  opens-sent k b h = commit-sent btoa _ ∙ ground (arith, h)

session_id_at-truthy : (now : ℕ) → is_truthy (session_id_at now) ≡ true
unfolding session_id_at
session_id_at-truthy now = refl

compiled-wanted :
    (btoa : List ℕ → Text) (is_mac : Bool) (decode : Decoder) (now : ℕ) (b64 : Text) (c : Console)
    → c.input_mode ≡ editor
    → is_truthy b64 ≡ true
    → wanted (deps_of btoa false (Actions.step is_mac decode (compiled now b64) c))
      ≡ some (record { session_id = session_id_at now; wasm = b64 })
unfolding wanted deps_of Actions.step Actions.react after_commit handle_compiled wasm_payload
    payload_text
compiled-wanted btoa is_mac decode now b64 c m h = rw (session_id_at-truthy now, m, h)

module _ (btoa : List ℕ → Text) (is_mac : Bool) (decode : Decoder) (hs : List Happening) where
  abbrev reached : Bench
  reached = run_all btoa is_mac decode hs (initial btoa)

  -- Whatever has happened since the mount, while the effect has a socket with something to run: its id
  -- and program are those that the console asks for; when it opens, the request for them is sent,
  -- unless the sending throws; and when it closes, with whatever code, the console stops running and
  -- the effect has no socket. If the close event of an earlier socket of the same terminal is still to
  -- come, it ends the session too when it comes.
  pub run_all-Tied :
      (k : Connection) (code : ℕ) (reason : Text)
      → (run_all btoa is_mac decode hs (initial btoa)).socket ≡ some k
      → is_truthy k.wasm ≡ true
      → let b = run_all btoa is_mac decode hs (initial btoa) in
        (wanted (deps_of btoa b.has_error b.console) ≡ some k)
        × ((step btoa is_mac decode (arrives (opens false)) b).terminal.sent
            ≡ b.terminal.sent ++ execute k.wasm k.session_id 30000 ∷ [])
        × Ended btoa (step btoa is_mac decode (arrives (closes code reason)) b)
        × ((b.closing ≡ 0) ⊎ Ended btoa (step btoa is_mac decode (late_closes code reason) b))
  unfolding step
  run_all-Tied k code reason e h =
      let t = run_all-IsTied btoa is_mac decode hs in
      let at = λ (i : Incoming). ap (λ (o : Option Connection). arrive btoa o i reached) e in
      (
        sym (tied-socket btoa reached t) ∙ e,
        ap (λ (x : Bench). x.terminal.sent) (at (opens false)) ∙ opens-sent btoa k reached h,
        subst (Ended btoa) (sym (at (closes code reason)))
            (arrive-Ended btoa k code reason reached t.is_open (ap is_some e)),
        late-Ended btoa reached.closing code reason reached t.is_open (ap is_some e),
      )

  -- Whatever has happened since the mount, in editor mode and while the panic screen is not shown: a
  -- module that has been compiled and is not empty opens a session with the id of that time, whose socket carries the module.
  pub run_all-runs_compiled :
      (now : ℕ) (b64 : Text)
      → (run_all btoa is_mac decode hs (initial btoa)).has_error ≡ false
      → (run_all btoa is_mac decode hs (initial btoa)).console.input_mode ≡ editor
      → is_truthy b64 ≡ true
      → (step btoa is_mac decode
          (act (compiled now b64))
          (run_all btoa is_mac decode hs (initial btoa))).socket
        ≡ some (record { session_id = session_id_at now; wasm = b64 })
  unfolding step
  run_all-runs_compiled now b64 calm m h =
      let t =
        step-IsTied btoa is_mac decode (act (compiled now b64)) reached
          (run_all-IsTied btoa is_mac decode hs) in
      let x : Bench = record reached {
        console = Actions.step is_mac decode (compiled now b64) reached.console;
      } in
      tied-socket btoa (commit btoa x) t
      ∙ ap (λ (e : Bool). wanted (deps_of btoa e (commit btoa x).console))
          (commit-has_error btoa x ∙ calm)
      ∙ ap (λ (c : Console). wanted (deps_of btoa false c)) (commit-console btoa x)
      ∙ compiled-wanted btoa is_mac decode now b64 reached.console m h
