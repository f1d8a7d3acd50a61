-- ===== src/Vitals/Window.antt =====
-- frontend/components/AgentVitals.tsx: the window of snapshots that the sparklines draw.
use mathlib.Core.List.{append_assoc, append-nil}
use isolator_v_wasm_sandbox.Common.{
  ℕ, zero, suc, ◌+◌, ◌-◌, ◌≤◌, ◌≡◌, refl, sym, ap, ◌∙◌, Bool-cases, inl, inr, List, [], ◌∷◌, ◌++◌,
  length, length-append, length-drop, drop, ltb, arith,
}
use isolator_v_wasm_sandbox.Vitals.{
  JsNumber, VitalsSnapshot, VitalsFetchResult, ok, failed, Reply, Hud, shift, trim, fetch_vitals,
  poll, sparkline_samples,
}

module _ {ℓ} {A : Type ℓ} where
  -- The last 60 items.
  abbrev pub last_samples : List A → List A
  last_samples xs = drop (length xs - sparkline_samples) xs

  drop-append :
      (n : ℕ) (xs : List A) (x : A) → n ≤ length xs → drop n (xs ++ x ∷ []) ≡ drop n xs ++ x ∷ []
  drop-append zero xs x h = refl
  drop-append (suc n) [] x h = elim h [ ]
  drop-append (suc n) (y ∷ xs) x h = drop-append n xs x (omega arith)

  drop-suc : (n : ℕ) (xs : List A) → drop (suc n) xs ≡ shift (drop n xs)
  drop-suc zero [] = refl
  drop-suc zero (x ∷ xs) = refl
  drop-suc (suc n) [] = refl
  drop-suc (suc n) (x ∷ xs) = drop-suc n xs

  pub trim-last_samples :
      (all : List A) (x : A) → trim (last_samples all ++ x ∷ []) ≡ last_samples (all ++ x ∷ [])
  trim-last_samples all x =
      let k = length all - sparkline_samples in
      let same : last_samples all ++ x ∷ [] ≡ drop k (all ++ x ∷ []) =
        sym (drop-append k all x (omega arith)) in
      let size : length (drop k (all ++ x ∷ [])) ≡ length all + 1 - k =
        length-drop k (all ++ x ∷ []) ∙ ap (λ n. n - k) (length-append all (x ∷ [])) in
      let total : length (all ++ x ∷ []) ≡ length all + 1 = length-append all (x ∷ []) in
      rw same (elim (Bool-cases (ltb sparkline_samples (length (drop k (all ++ x ∷ []))))) [
        | inl e ↦
            let next : length (all ++ x ∷ []) - sparkline_samples ≡ suc k =
              ground (arith, size, total) in
            rw (e, next) (sym (drop-suc k (all ++ x ∷ [])))
        | inr e ↦
            let next : length (all ++ x ∷ []) - sparkline_samples ≡ k =
              ground (arith, size, total) in
            rw (e, next)
      ])

module _ (num : JsNumber) where
  -- The snapshot that a reply leads to.
  abbrev pub snapshot_from : VitalsFetchResult num → VitalsSnapshot num
  snapshot_from (ok snapshot) = snapshot
  snapshot_from (failed network_error fallback) = fallback

  -- A row of polls, each with its reply and the time that has elapsed.
  abbrev pub polls : List (Reply num × ℕ) → Hud num → Hud num
  polls [] h = h
  polls ((reply, elapsed) ∷ rs) h = polls rs (poll num reply elapsed h)

  -- The snapshots that a row of polls shows, one for each.
  abbrev pub shown : List (Reply num × ℕ) → Hud num → List (VitalsSnapshot num)
  shown [] h = []
  shown ((reply, elapsed) ∷ rs) h =
      snapshot_from (fetch_vitals num reply elapsed h.latest) ∷ shown rs (poll num reply elapsed h)

  poll-snapshots :
      (reply : Reply num) (elapsed : ℕ) (h : Hud num)
      → (poll num reply elapsed h).snapshots
        ≡ trim (h.snapshots ++ snapshot_from (fetch_vitals num reply elapsed h.latest) ∷ [])
  unfolding poll
  poll-snapshots reply elapsed h = ground arith

  polls-last_samples :
      (rs : List (Reply num × ℕ)) (h : Hud num) (before : List (VitalsSnapshot num))
      → h.snapshots ≡ last_samples before
      → (polls rs h).snapshots ≡ last_samples (before ++ shown rs h)
  polls-last_samples [] h before e = e ∙ ap last_samples (sym (append-nil before))
  polls-last_samples ((reply, elapsed) ∷ rs) h before e =
      let s = snapshot_from (fetch_vitals num reply elapsed h.latest) in
      let step =
        poll-snapshots reply elapsed h
        ∙ ap (λ xs. trim (xs ++ s ∷ [])) e
        ∙ trim-last_samples before s in
      polls-last_samples rs (poll num reply elapsed h) (before ++ s ∷ []) step
      ∙ ap last_samples (append_assoc before (s ∷ []) (shown rs (poll num reply elapsed h)))

  -- After any row of polls from an empty window, the window holds the last 60 of the snapshots that
  -- the polls showed, failed polls included, in their order, and never more than 60.
  pub polls_window :
      (rs : List (Reply num × ℕ)) (h : Hud num)
      → h.snapshots ≡ []
      → ((polls rs h).snapshots ≡ last_samples (shown rs h))
        × (length (polls rs h).snapshots ≤ sparkline_samples)
  polls_window rs h e =
      let window = polls-last_samples rs h [] e in
      (
        window,
        omega (
          arith,
          ap length window,
          length-drop (length (shown rs h) - sparkline_samples) (shown rs h),
        ),
      )
