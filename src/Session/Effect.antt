-- ===== src/Session/Effect.antt =====
-- frontend/components/Terminal.tsx: the effect of the session keeps the socket that its values ask for.
use isolator_v_wasm_sandbox.Common.{
  zero, suc, ℕ, if_elim, Text, text_eq, text_eq_iff, ℕ, ◌≡◌, refl, sym, ap, ◌∙◌, Bool, true, false,
  ◌&&◌, Option, none, some, is_some, List, arith, Bool-cases, inl, inr, if_elim,
}
use isolator_v_wasm_sandbox.Terminal.{Terminal, writeln, loaded, flush_buffer, enqueue, drain}
use isolator_v_wasm_sandbox.Terminal.Socket.{
  throws, null_value, control, on_open, on_exit_frame, on_text, on_error, on_close, on_input,
  open_session, cleanup, Event, xterm_loaded, animation_frame, session_opened, socket_error,
  cleaned_up, socket_opened, binary_frame, text_frame, socket_closed, typed, react,
}
use isolator_v_wasm_sandbox.Console.{Console}
use isolator_v_wasm_sandbox.Session.{
  late, is_closing, Deps, Connection, Bench, Incoming, opens, binary, text, fails, closes, types,
  event_of, same_bool, same_id, same_deps, leave, wanted, opened, told, deps_of, commit, arrive,
}

-- The socket is the one that the values of the effect ask for, and while there is one, the terminal
-- does not take its end for one that it has asked for.
pub record IsOpen (b : Bench) : Type 0 where
  pub asked : b.socket ≡ wanted b.deps
  pub heard : is_some b.socket ≡ true → b.terminal.intentional_close ≡ false

-- The events that neither open nor clean up a session.
abbrev pub IsHandled : Event → Type 0
IsHandled session_opened = ⊥
IsHandled cleaned_up = ⊥
IsHandled _ = Unit

pub react-intentional :
    (e : Event) (t : Terminal) → IsHandled e → (react e t).intentional_close ≡ t.intentional_close
unfolding react loaded enqueue on_error on_open on_input on_close on_text on_exit_frame writeln
    drain flush_buffer
react-intentional xterm_loaded t h = refl
react-intentional animation_frame t h = ground arith
react-intentional session_opened t h = absurd h
react-intentional socket_error t h = ground arith
react-intentional cleaned_up t h = absurd h
react-intentional (socket_opened send_throws id wasm) t h = ground arith
react-intentional (binary_frame chunk) t h = refl
react-intentional (text_frame throws bytes) t h = refl
react-intentional (text_frame null_value bytes) t h = refl
react-intentional (text_frame (control msg) bytes) t h = ground arith
react-intentional (socket_closed code reason) t h = ground arith
react-intentional (typed is_open input) t h = ground arith

event_of-IsHandled : (k : Connection) (i : Incoming) → IsHandled (event_of k i)
event_of-IsHandled k (opens send_throws) = tt
event_of-IsHandled k (binary chunk) = tt
event_of-IsHandled k (text parsed bytes) = tt
event_of-IsHandled k fails = tt
event_of-IsHandled k (closes code reason) = tt
event_of-IsHandled k (types is_open input) = tt

pub told-IsOpen : (e : Event) (b : Bench) → IsHandled e → IsOpen b → IsOpen (told e b)
unfolding told
told-IsOpen e b h k = record {
  asked = k.asked;
  heard = λ s. react-intentional e b.terminal h ∙ k.heard s;
}

same_bool_eq : (a b : Bool) → same_bool a b ≡ true → a ≡ b
same_bool_eq true b h = sym h
same_bool_eq false true h = cc h
same_bool_eq false false h = refl

same_id_eq : (a b : Option Text) → same_id a b ≡ true → a ≡ b
same_id_eq none none h = refl
same_id_eq none (some b) h = cc h
same_id_eq (some a) none h = cc h
same_id_eq (some a) (some b) h = ap some ((text_eq_iff a b).0 h)

and_true : (a b : Bool) → (a && b) ≡ true → (a ≡ true) × (b ≡ true)
and_true a b h = ground arith

same_deps_eq : (d e : Deps) → same_deps d e ≡ true → d ≡ e
same_deps_eq d e h =
    let both = same_bool d.mounted e.mounted && same_bool d.running e.running in
    let (first, wasm) =
      and_true (both && same_id d.session_id e.session_id) (text_eq d.wasm_b64 e.wasm_b64) h in
    let (bools, id) = and_true both (same_id d.session_id e.session_id) first in
    let (there, runs) =
      and_true (same_bool d.mounted e.mounted) (same_bool d.running e.running) bools in
    let m = same_bool_eq d.mounted e.mounted there in
    let r = same_bool_eq d.running e.running runs in
    let i = same_id_eq d.session_id e.session_id id in
    let w = (text_eq_iff d.wasm_b64 e.wasm_b64).0 wasm in cc (m, r, i, w)

leave-closed : (b : Bench) → (leave b).socket ≡ none
unfolding leave
leave-closed b = closed b.socket refl
  where
    closed : (o : Option Connection) → b.socket ≡ o → (leave b).socket ≡ none
    closed none e = ground (arith, e)
    closed (some k) e = ground (arith, e)

opened-IsOpen :
    (o : Option Connection) (b : Bench) → o ≡ wanted b.deps → b.socket ≡ none → IsOpen (opened o b)
unfolding open_session react
opened-IsOpen none b w e = record { asked = e ∙ w; heard = λ s. absurd (cc (e, s)) }
opened-IsOpen (some k) b w e = record { asked = w; heard = λ s. refl }

-- What the effect does not touch.
abbrev shell : Bench → Bool × Console
shell b = (b.has_error, b.console)

leave-shell : (b : Bench) → shell (leave b) ≡ shell b
unfolding leave
leave-shell b = if_elim (λ (x : Bench). shell x ≡ shell b) (is_some b.socket) _ b refl refl

opened-shell : (o : Option Connection) (b : Bench) → shell (opened o b) ≡ shell b
opened-shell none b = refl
opened-shell (some k) b = refl

opened-deps : (o : Option Connection) (b : Bench) → (opened o b).deps ≡ b.deps
opened-deps none b = refl
opened-deps (some k) b = refl

pub record IsTied (btoa : List ℕ → Text) (b : Bench) : Type 0 where
  pub is_open : IsOpen b
  pub current : b.deps ≡ deps_of btoa b.has_error b.console

module _ (btoa : List ℕ → Text) where
  commit-shell : (b : Bench) → shell (commit btoa b) ≡ shell b
  unfolding commit
  commit-shell b =
      let d = deps_of btoa b.has_error b.console in
      if_elim (λ x. shell x ≡ shell b) (same_deps d b.deps) b _ refl
        (opened-shell (wanted d) _ ∙ leave-shell b)

  pub commit-console : (b : Bench) → (commit btoa b).console ≡ b.console
  commit-console b = ap (λ (s : Bool × Console). s.1) (commit-shell b)

  pub commit-has_error : (b : Bench) → (commit btoa b).has_error ≡ b.has_error
  commit-has_error b = ap (λ (s : Bool × Console). s.0) (commit-shell b)

  pub commit-IsTied : (b : Bench) → IsOpen b → IsTied btoa (commit btoa b)
  unfolding commit
  commit-IsTied b k =
      let d = deps_of btoa b.has_error b.console in
      let left : Bench = record (leave b) { deps = d } in
      elim (Bool-cases (same_deps d b.deps)) [
        | inl e ↦ rw e (record { is_open = k; current = sym (same_deps_eq d b.deps e) })
        | inr e ↦ rw e (record {
          is_open = opened-IsOpen (wanted d) left refl (leave-closed b);
          current =
              opened-deps (wanted d) left
              ∙ ap (λ (s : Bool × Console). deps_of btoa s.0 s.1)
                  (sym (opened-shell (wanted d) left ∙ leave-shell b));
        })
      ]

  pub arrive-IsTied :
      (o : Option Connection) (i : Incoming) (b : Bench)
      → IsTied btoa b
      → IsTied btoa (arrive btoa o i b)
  arrive-IsTied none i b t = t
  arrive-IsTied (some k) i b t = commit-IsTied _ (
      told-IsOpen (event_of k i) (record b { ended = is_closing i }) (event_of-IsHandled k i)
        (record { asked = t.is_open.asked; heard = t.is_open.heard }))

  pub late-IsTied :
      (n code : ℕ) (reason : Text) (b : Bench)
      → IsTied btoa b
      → IsTied btoa (late btoa n code reason b)
  late-IsTied zero code reason b t = t
  late-IsTied (suc n) code reason b t = commit-IsTied _ (
      told-IsOpen (socket_closed code reason) (record b { closing = n }) tt
        (record { asked = t.is_open.asked; heard = t.is_open.heard }))

leave-sent : (b : Bench) → (leave b).terminal.sent ≡ b.terminal.sent
unfolding leave react cleanup drain
leave-sent b = ground arith

opened-sent : (o : Option Connection) (b : Bench) → (opened o b).terminal.sent ≡ b.terminal.sent
unfolding react open_session
opened-sent none b = refl
opened-sent (some k) b = refl

pub commit-sent :
    (btoa : List ℕ → Text) (b : Bench) → (commit btoa b).terminal.sent ≡ b.terminal.sent
unfolding commit
commit-sent btoa b =
    let d = deps_of btoa b.has_error b.console in
    if_elim (λ x. x.terminal.sent ≡ b.terminal.sent) (same_deps d b.deps) b _ refl
      (opened-sent (wanted d) _ ∙ leave-sent b)
