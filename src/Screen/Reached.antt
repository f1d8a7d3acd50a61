-- ===== src/Screen/Reached.antt =====
-- frontend/components/ExecutionConsole.tsx: the screens of a console that has been used.
use isolator_v_wasm_sandbox.Console.Keys.{has_path, open_preview, KeyEvent, keydown}
use isolator_v_wasm_sandbox.Common.{
  if_elim, not, Text, codes, base_name, ℕ, ◌≡◌, ◌≢◌, ◌⊎◌, inl, inr, refl, ◌∙◌, Bool, true, Option,
  none, some, is_some, List, [], ◌∷◌, if◌then◌else◌, arith, Bool-cases, Option-cases,
}
use isolator_v_wasm_sandbox.Console.{
  InputMode, DemoKey, demo, editor, Console, running, Tab, terminal, preview, Decoder, is_running,
  initial, handle_run, handle_stop, handle_reset, handle_compiled, handle_file_select, handle_crash,
  handle_reconnect, on_end, after_commit,
}
use isolator_v_wasm_sandbox.Console.SessionId.{session_id_at}
use isolator_v_wasm_sandbox.Console.Actions.{
  Action, run, compiled, stop, file_select, end, key, show_preview, react, step, run_all,
}
use isolator_v_wasm_sandbox.Console.Invariant.{Inv, run_all-Inv}
use isolator_v_wasm_sandbox.Preview.Inline.{props_of}
use isolator_v_wasm_sandbox.Screen.{
  Select, demo_select_of, given, TabView, tabs, component_registry, no_preview, content, badge,
  badge_tip, badge_dot, pulsing, Screen, render, terminal_hint,
}

-- What the console's invariant leaves open about the screen.
record IsSeen (s : Console) : Type 0 where
  vitals : s.sandbox_state ≡ running → s.show_vitals ≡ true
  named : given s.session_id ≡ s.session_id

session_id_at-given : (now : ℕ) → given (some (session_id_at now)) ≡ some (session_id_at now)
unfolding session_id_at
session_id_at-given now = refl

initial-IsSeen : IsSeen initial
unfolding initial
initial-IsSeen = record { vitals = λ r. cc; named = refl }

-- The demo selector is disabled, where it is there.
abbrev pub IsLocked : Option (Select DemoKey) → Type 0
IsLocked none = Unit
IsLocked (some x) = x.disabled ≡ true

demo_select_of-IsLocked :
    (mode : InputMode) (chosen : DemoKey) → IsLocked (demo_select_of mode chosen true)
demo_select_of-IsLocked demo chosen = refl
demo_select_of-IsLocked editor chosen = tt

-- The screen of a running session with the id `id`.
pub record IsLive (s : Screen) (id : Text) : Type 0 where
  pub badge :
      s.badge
      ≡ some
          (record { id = id; tip = codes "Session active — connected to sandbox"; dot = pulsing })
  pub vitals : s.vitals_panel ≡ true
  pub live : s.live ≡ true
  pub hint : s.terminal_hint ≡ some (codes "Type to send stdin — output streams here")
  pub locked : s.mode_select.disabled ≡ true
  pub demo_locked : IsLocked s.demo_select

running-IsLive :
    (s : Console)
    → Inv s
    → IsSeen s
    → s.sandbox_state ≡ running
    → (id : Text) × (s.session_id ≡ some id) × IsLive (render s) id
unfolding render badge badge_tip badge_dot terminal_hint
running-IsLive s inv seen r = elim (Option-cases s.session_id) [
  | inl e ↦ absurd (ground (arith, inv.session_live r))
  | inr (id, e) ↦
      let shown_id : given s.session_id ≡ some id = seen.named ∙ e in
      (
        id,
        e,
        record {
          badge = rw shown_id (rw r refl);
          vitals = seen.vitals r;
          live = rw r refl;
          hint = rw r refl;
          locked = rw r refl;
          demo_locked = rw r (demo_select_of-IsLocked s.input_mode s.selected_demo);
        },
      )
]

-- The labels of the tabs that are marked as active.
abbrev pub marked : List TabView → List Text
marked [] = []
marked (t ∷ ts) = if t.active then t.label ∷ marked ts else marked ts

-- The tab bar marks one tab, and the top pane shows what that tab stands for.
abbrev pub OneTab : Console → Type 0
OneTab s =
    ((marked (render s).tabs ≡ codes "Console" ∷ []) × ((render s).content ≡ no_preview s))
    ⊎ ((path : Text) × (s.preview_file ≡ some path)
        × (marked (render s).tabs ≡ base_name path ∷ [])
        × ((render s).content ≡ component_registry (props_of path s)))

state-OneTab :
    (s : Console) (tab : Tab) (file : Option Text)
    → s.active_tab ≡ tab
    → s.preview_file ≡ file
    → (tab ≡ preview → is_some file ≡ true)
    → file ≢ some []
    → OneTab s
unfolding render tabs content
state-OneTab s terminal none t f opened named = inl (rw f (rw t refl), rw f refl)
state-OneTab s terminal (some []) t f opened named = absurd (named refl)
state-OneTab s terminal (some (c ∷ path)) t f opened named =
    inl (rw f (rw t refl), rw f (rw t refl))
state-OneTab s preview none t f opened named = cc (opened refl)
state-OneTab s preview (some []) t f opened named = absurd (named refl)
state-OneTab s preview (some (c ∷ path)) t f opened named =
    inr (c ∷ path, f, rw f (rw t refl), rw f (rw t refl))

-- An id that is there is not empty.
IsNamed : Console → Type 0
IsNamed s = given s.session_id ≡ s.session_id

open_preview-IsNamed : (s : Console) → IsNamed s → IsNamed (open_preview s)
unfolding IsNamed
open_preview-IsNamed s h = if_elim IsNamed (has_path s.preview_file) _ s h h

handle_run-IsNamed : (now : ℕ) (s : Console) → IsNamed s → IsNamed (handle_run now s)
unfolding handle_run IsNamed
handle_run-IsNamed now s h =
    if_elim IsNamed (is_running s.sandbox_state) s _ h (session_id_at-given now)

handle_stop-IsNamed : (s : Console) → IsNamed s → IsNamed (handle_stop s)
unfolding handle_stop IsNamed
handle_stop-IsNamed s h = if_elim IsNamed (is_running s.sandbox_state) _ s h h

reset-IsNamed : (s : Console) → IsNamed (handle_reset s)
unfolding handle_reset IsNamed
reset-IsNamed s = refl

shown-IsNamed :
    (tab : Tab) (help : Bool) (s : Console)
    → IsNamed s
    → IsNamed (record s { active_tab = tab; help_open = help })
unfolding IsNamed
shown-IsNamed tab help s h = h

keydown-IsNamed :
    (is_mac : Bool) (now : ℕ) (e : KeyEvent) (s : Console)
    → IsNamed s
    → IsNamed (keydown is_mac now e s)
unfolding keydown
keydown-IsNamed is_mac now e s h = if_elim IsNamed _ _ _ (handle_run-IsNamed now s h) (
    if_elim IsNamed _ _ _ (handle_stop-IsNamed s h) (
      if_elim IsNamed _ _ _ (reset-IsNamed s) (
        if_elim IsNamed _ _ _ (shown-IsNamed terminal s.help_open s h) (
          if_elim IsNamed _ _ _ (open_preview-IsNamed s h) (
            if_elim IsNamed _ _ _ (shown-IsNamed s.active_tab (not s.help_open) s h)
              (if_elim IsNamed _ _ _ (shown-IsNamed s.active_tab true s h) h))))))

module _ (is_mac : Bool) (decode : Decoder) where
  react-IsNamed :
      (a : Action) (s : Console)
      → given s.session_id ≡ s.session_id
      → given (react is_mac decode a s).session_id ≡ (react is_mac decode a s).session_id
  unfolding react handle_run handle_compiled handle_stop handle_reset handle_file_select
      handle_crash handle_reconnect on_end IsNamed
  react-IsNamed (run now) s h = ground (arith, session_id_at-given now)
  react-IsNamed (compiled now b) s h = session_id_at-given now
  react-IsNamed stop s h = ground arith
  react-IsNamed (file_select path) s h = ground arith
  react-IsNamed (end o v c) s h = ground arith
  react-IsNamed (key now e) s h = keydown-IsNamed is_mac now e s h
  react-IsNamed show_preview s h = open_preview-IsNamed s h
  react-IsNamed _ s h = ground arith

  step-IsSeen : (a : Action) (s : Console) → IsSeen s → IsSeen (step is_mac decode a s)
  unfolding step after_commit
  step-IsSeen a s h =
      let named = react-IsNamed a s h.named in
      elim (Bool-cases (is_running (react is_mac decode a s).sandbox_state)) [
        | inl e ↦ rw e (record { vitals = λ r. refl; named = named })
        | inr e ↦ rw e (record { vitals = λ r. ground arith; named = named })
      ]

  run_all-IsSeen :
      (as' : List Action) (s : Console) → IsSeen s → IsSeen (run_all is_mac decode as' s)
  unfolding run_all
  run_all-IsSeen [] s h = h
  run_all-IsSeen (a ∷ as') s h = run_all-IsSeen as' (step is_mac decode a s) (step-IsSeen a s h)

  -- Whatever events the console has seen since it was mounted, while a session runs the screen shows
  -- its id with the words that it is active and a pulsing dot, the vitals panel, the live mark and
  -- the hint to type, and the selector of the mode is disabled, and that of the demo where it is there.
  pub run_all-IsLive :
      (as' : List Action)
      → (run_all is_mac decode as' initial).sandbox_state ≡ running
      → (id : Text) × ((run_all is_mac decode as' initial).session_id ≡ some id)
        × IsLive (render (run_all is_mac decode as' initial)) id
  run_all-IsLive as' r =
      running-IsLive (run_all is_mac decode as' initial) (run_all-Inv is_mac decode as')
        (run_all-IsSeen as' initial initial-IsSeen) r

  -- Whatever events the console has seen since it was mounted, unless the path of the open file is
  -- empty, the tab bar marks one tab as active: the Console tab, with the editor or the welcome pane
  -- below, or that of the open file, with its preview below.
  pub run_all-OneTab :
      (as' : List Action)
      → (run_all is_mac decode as' initial).preview_file ≢ some []
      → OneTab (run_all is_mac decode as' initial)
  run_all-OneTab as' named =
      let s = run_all is_mac decode as' initial in
      state-OneTab s s.active_tab s.preview_file refl refl
        (run_all-Inv is_mac decode as').preview_open named
