-- ===== src/Editor/Laws.antt =====
-- frontend/components/CodeEditor.tsx: what is shown in each state of the compilation, and the
-- requests that are out.
use isolator_v_wasm_sandbox.Common.{
  Text, text_eq, codes, ℕ, ◌≡◌, ◌≤◌, ◌<◌, refl, sym, ◌∙◌, Bool, true, false, ◌||◌, ◌&&◌, Option,
  none, is_some, List, [], ◌∷◌, ◌++◌, length, take, drop, suc, ltb, if◌then◌else◌, if_elim,
  Bool-cases, inl, inr, All, arith, length-append, length-take, length-drop,
}
use isolator_v_wasm_sandbox.Editor.{
  CompileState, CompileResult, CompileError, idle, compiling, success, error, Editor, Reply, threw,
  response, Event, compile, keydown, tab, change, reset, settle, is_compiling, is_idle,
  handle_compile_and_run, handle_reset, change_source, insert_tab, settled, settle_at, step,
  run_all, Body,
}

-- What goes with each state: a compilation that is shown as running has a request out and no outcome
-- of an earlier one, a failure has its message, a success has its module.
abbrev pub Shows : CompileState → Option CompileResult → Option CompileError → List Text → Type 0
Shows idle r x requests = Unit
Shows compiling r x requests = (0 < length requests) × (r ≡ none) × (x ≡ none)
Shows success r x requests = is_some r ≡ true
Shows error r x requests = is_some x ≡ true

abbrev pub IsConsistent : Editor → Type 0
IsConsistent e = Shows e.compile_state e.compile_result e.compile_error e.requests

settled-IsConsistent : (reply : Reply) (e : Editor) → IsConsistent (settled reply e)
unfolding settled
settled-IsConsistent (threw message) e = refl
settled-IsConsistent (response true b) e = refl
settled-IsConsistent (response false b) e = refl

handle_compile_and_run-IsConsistent :
    (running : Bool) (e : Editor) → IsConsistent e → IsConsistent (handle_compile_and_run running e)
unfolding handle_compile_and_run
handle_compile_and_run-IsConsistent running e c =
    if_elim IsConsistent (running || is_compiling e.compile_state) e _ c
      (omega (arith, length-append e.requests (e.source ∷ [])), refl, refl)

Shows-changed :
    (state : CompileState) (r : Option CompileResult) (x : Option CompileError)
    (requests : List Text)
    → Shows state r x requests
    → Shows (if is_idle state || is_compiling state then state else idle) r x requests
Shows-changed idle r x requests h = h
Shows-changed compiling r x requests h = h
Shows-changed success r x requests h = tt
Shows-changed error r x requests h = tt

module _ (default_source : Text) where
  step-IsConsistent :
      (v : Event) (e : Editor) → IsConsistent e → IsConsistent (step default_source v e)
  unfolding step insert_tab change_source handle_reset
  step-IsConsistent (compile running) e c = handle_compile_and_run-IsConsistent running e c
  step-IsConsistent (keydown mod_key running key) e c =
      if_elim IsConsistent (mod_key && text_eq key (codes "Enter")) _ e
        (handle_compile_and_run-IsConsistent running e c) c
  step-IsConsistent (tab start end) e c = c
  step-IsConsistent (change text) e c =
      Shows-changed e.compile_state e.compile_result e.compile_error e.requests c
  step-IsConsistent reset e c = tt
  step-IsConsistent (settle i reply) e c =
      if_elim IsConsistent (ltb i (length e.requests)) _ e (settled-IsConsistent reply _) c

  -- Whatever happens in the editor, in any order, keeps what is shown consistent, if it was: while it says that
  -- it is compiling there is a request that has not been answered and no outcome of an earlier one,
  -- a failure has its message, and a success its module.
  pub run_all-IsConsistent :
      (vs : List Event) (e : Editor) → IsConsistent e → IsConsistent (run_all default_source vs e)
  unfolding run_all
  run_all-IsConsistent [] e c = c
  run_all-IsConsistent (v ∷ vs) e c = run_all-IsConsistent vs _ (step-IsConsistent v e c)

-- The requests that may be out without a reset: one while it says that it is compiling, else none.
abbrev pub requests_for : CompileState → ℕ
requests_for compiling = 1
requests_for _ = 0

abbrev pub IsNoReset : Event → Type 0
IsNoReset reset = ⊥
IsNoReset _ = Unit

abbrev IsSingle : Editor → Type 0
IsSingle e = length e.requests ≡ requests_for e.compile_state

requests_for_le : (state : CompileState) → requests_for state ≤ 1
requests_for_le idle = ground arith
requests_for_le compiling = ground arith
requests_for_le success = ground arith
requests_for_le error = ground arith

none_out :
    (running : Bool) (state : CompileState)
    → (running || is_compiling state) ≡ false
    → requests_for state ≡ 0
none_out running idle h = refl
none_out true compiling h = ground arith
none_out false compiling h = ground arith
none_out running success h = refl
none_out running error h = refl

handle_compile_and_run-IsSingle :
    (running : Bool) (e : Editor) → IsSingle e → IsSingle (handle_compile_and_run running e)
unfolding handle_compile_and_run
handle_compile_and_run-IsSingle running e h =
    elim (Bool-cases (running || is_compiling e.compile_state)) [
      | inl b ↦ rw b h
      | inr b ↦ rw b (
          omega (
            arith,
            length-append e.requests (e.source ∷ []),
            h,
            none_out running e.compile_state b,
          ))
    ]

requests_for-changed :
    (state : CompileState)
    → requests_for (if is_idle state || is_compiling state then state else idle)
      ≡ requests_for state
requests_for-changed idle = refl
requests_for-changed compiling = refl
requests_for-changed success = refl
requests_for-changed error = refl

settled-IsSingle : (reply : Reply) (e : Editor) → length e.requests ≡ 0 → IsSingle (settled reply e)
unfolding settled
settled-IsSingle (threw message) e h = h
settled-IsSingle (response true b) e h = h
settled-IsSingle (response false b) e h = h

-- The one request that is out is taken out by its answer.
one_answered :
    (i : ℕ) (requests : List Text) (state : CompileState)
    → length requests ≡ requests_for state
    → i < length requests
    → length (take i requests ++ drop (suc i) requests) ≡ 0
one_answered i requests state h b = omega (
  arith,
  h,
  b,
  requests_for_le state,
  length-append (take i requests) (drop (suc i) requests),
  length-take i requests,
  length-drop (suc i) requests,
)

settle_at-IsSingle :
    (i : ℕ) (reply : Reply) (e : Editor) → IsSingle e → IsSingle (settle_at i reply e)
settle_at-IsSingle i reply e h = elim (Bool-cases (ltb i (length e.requests))) [
  | inl b ↦
      rw b (settled-IsSingle reply _ (one_answered i e.requests e.compile_state h (ground arith)))
  | inr b ↦ rw b h
]

module _ (default_source : Text) where
  step-IsSingle :
      (v : Event) (e : Editor) → IsNoReset v → IsSingle e → IsSingle (step default_source v e)
  unfolding step insert_tab change_source
  step-IsSingle (compile running) e n h = handle_compile_and_run-IsSingle running e h
  step-IsSingle (keydown mod_key running key) e n h =
      if_elim IsSingle (mod_key && text_eq key (codes "Enter")) _ e
        (handle_compile_and_run-IsSingle running e h) h
  step-IsSingle (tab start end) e n h = h
  step-IsSingle (change text) e n h = h ∙ sym (requests_for-changed e.compile_state)
  step-IsSingle reset e n h = absurd n
  step-IsSingle (settle i reply) e n h = settle_at-IsSingle i reply e h

  -- As long as the editor is not reset, and if it is so at first: there is exactly one request out
  -- while it says that it is compiling, and none otherwise.
  pub run_all-IsSingle :
      (vs : List Event) (e : Editor)
      → All IsNoReset vs
      → length e.requests ≡ requests_for e.compile_state
      → length (run_all default_source vs e).requests
        ≡ requests_for (run_all default_source vs e).compile_state
  unfolding run_all
  run_all-IsSingle [] e n h = h
  run_all-IsSingle (v ∷ vs) e n h = run_all-IsSingle vs _ n.1 (step-IsSingle v e n.0 h)

  -- From an editor that has no request out, is not compiling and may run: a reset does not cancel the
  -- request of a compilation. When that is answered with success, its module is handed over for
  -- execution all the same, and the reset editor shows the success.
  pub settle-reset :
      (running : Bool) (b : Body) (e : Editor)
      → (running || is_compiling e.compile_state) ≡ false
      → e.requests ≡ []
      → let after =
          run_all default_source (compile running ∷ reset ∷ settle 0 (response true b) ∷ []) e in
        (after.handed_over ≡ e.handed_over ++ b.body_wasm ∷ []) × (after.compile_state ≡ success)
  unfolding run_all step handle_compile_and_run handle_reset settled
  settle-reset running b e h r = rw h (rw r (refl, refl))
