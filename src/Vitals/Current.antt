-- ===== src/Vitals/Current.antt =====
-- frontend/components/AgentVitals.tsx: the displays show the last of the samples that are drawn.
use isolator_v_wasm_sandbox.Common.{
  last?, last?-append, last?-map, Text, codes, ◌≡◌, refl, sym, Bool, true, false, Bool-cases, inl,
  inr, Option, none, some, List, [], ◌∷◌, ◌++◌, length, ltb,
}
use isolator_v_wasm_sandbox.Vitals.{
  JsNumber, VitalsSnapshot, VitalsFetchResult, ok, failed, Hud, mounted, trim, absorb, fetch_vitals,
  poll, stopped, started, Event, polled, stop, start, step, run_all, pct_color, sparkline_samples,
}
use isolator_v_wasm_sandbox.Vitals.Panels.{
  Arithmetic, Display, waiting, dash, full, pill, Meter, mem_color, format_mem, format_wall,
  progress_bar, mem_pct_of, cpu_pct_of, full_panel, compact_pill, agent_vitals,
}

module _ {ℓ} {A : Type ℓ} where
  last?-trim : (xs : List A) (x : A) → last? (trim (xs ++ x ∷ [])) ≡ some x
  last?-trim [] x = refl
  last?-trim (y ∷ ys) x = elim (Bool-cases (ltb sparkline_samples (length (y ∷ ys ++ x ∷ [])))) [
    | inl e ↦ rw e (last?-append ys x)
    | inr e ↦ rw e (last?-append (y ∷ ys) x)
  ]

module _ (num : JsNumber) where
  -- What is kept by every event.
  LatestIsLast : Hud num → Type 0
  LatestIsLast h = h.latest ≡ last? h.snapshots

  absorb-LatestIsLast : (r : VitalsFetchResult num) (h : Hud num) → LatestIsLast (absorb num r h)
  unfolding LatestIsLast
  absorb-LatestIsLast (ok snapshot) h = sym (last?-trim h.snapshots snapshot)
  absorb-LatestIsLast (failed network_error fallback) h = sym (last?-trim h.snapshots fallback)

  step-LatestIsLast : (e : Event num) (h : Hud num) → LatestIsLast h → LatestIsLast (step num e h)
  unfolding step poll stopped started LatestIsLast
  step-LatestIsLast (polled reply elapsed) h k =
      unfold LatestIsLast in absorb-LatestIsLast (fetch_vitals num reply elapsed h.latest) h
  step-LatestIsLast stop h k = refl
  step-LatestIsLast start h k = k

  run_all-LatestIsLast :
      (es : List (Event num)) (h : Hud num) → LatestIsLast h → LatestIsLast (run_all num es h)
  unfolding run_all
  run_all-LatestIsLast [] h k = k
  run_all-LatestIsLast (e ∷ es) h k =
      run_all-LatestIsLast es (step num e h) (step-LatestIsLast e h k)

module _ (num : JsNumber) (ops : Arithmetic num) where
  open num use {Number, of_numeral}
  open ops use {least, round, to_fixed, to_text}

  -- A meter reads a percentage: it is the last sample of the sparkline, and the text, the bar and the
  -- sparkline have its colour.
  abbrev pub Reads : Text → Number → Meter num ops → Type 0
  Reads reading pct m =
      (m.reading ≡ reading)
      × (last? m.sparkline.samples ≡ some pct)
      × (m.bar.width ≡ least (of_numeral 100) pct)
      × (m.reading_colour ≡ pct_color num pct)
      × (m.bar.colour ≡ pct_color num pct)
      × (m.sparkline.colour ≡ pct_color num pct)

  -- A display shows the last of a row of snapshots, or that there is none.
  abbrev pub ShowsLast : List (VitalsSnapshot num) → Display num ops → Type 0
  ShowsLast snapshots waiting = snapshots ≡ []
  ShowsLast snapshots dash = snapshots ≡ []
  ShowsLast snapshots (full memory cpu limit elapsed) =
      (s : VitalsSnapshot num) × (last? snapshots ≡ some s)
      × Reads (format_mem num ops s.mem_used_bytes) (mem_pct_of num ops s) memory
      × Reads (to_fixed 1 s.cpu_pct ++ codes "%") s.cpu_pct cpu
      × (limit ≡ codes " / " ++ format_mem num ops s.mem_limit_bytes)
      × (elapsed ≡ format_wall num ops (of_numeral s.wall_ms))
  ShowsLast snapshots (pill cpu cpu_text mem_text pct_text title cpu_colour mem_colour pct_colour) =
      (s : VitalsSnapshot num) × (last? snapshots ≡ some s)
      × (last? cpu.samples ≡ some s.cpu_pct)
      × (cpu.colour ≡ pct_color num s.cpu_pct)
      × (cpu_text ≡ to_text (round s.cpu_pct) ++ codes "%")
      × (mem_text ≡ format_mem num ops s.mem_used_bytes)
      × (pct_text ≡ to_fixed 0 (mem_pct_of num ops s) ++ codes "%")
      × (cpu_colour ≡ pct_color num s.cpu_pct)
      × (mem_colour ≡ pct_color num (mem_pct_of num ops s))
      × (pct_colour ≡ pct_color num (mem_pct_of num ops s))
      × (title ≡ codes "Mem: " ++ to_fixed 0 (mem_pct_of num ops s) ++ codes "%")

  empty-ShowsLast :
      (snapshots : List (VitalsSnapshot num)) → none ≡ last? snapshots → snapshots ≡ []
  empty-ShowsLast [] e = refl
  empty-ShowsLast (x ∷ []) e = absurd (cc e)
  empty-ShowsLast (x ∷ y ∷ xs) e = absurd (cc (empty-ShowsLast (y ∷ xs) e))

  full_panel-ShowsLast :
      (snapshots : List (VitalsSnapshot num)) (latest : Option (VitalsSnapshot num))
      → latest ≡ last? snapshots
      → ShowsLast snapshots (full_panel num ops snapshots latest)
  unfolding full_panel mem_color progress_bar
  full_panel-ShowsLast snapshots none e = empty-ShowsLast snapshots e
  full_panel-ShowsLast snapshots (some s) e =
      let last_sample = λ (f : VitalsSnapshot num → Number). last?-map f snapshots (sym e) in
      (
        s,
        sym e,
        (refl, last_sample (mem_pct_of num ops), refl, refl, refl, refl),
        (refl, last_sample (cpu_pct_of num ops), refl, refl, refl, refl),
        refl,
        refl,
      )

  compact_pill-ShowsLast :
      (snapshots : List (VitalsSnapshot num)) (latest : Option (VitalsSnapshot num))
      → latest ≡ last? snapshots
      → ShowsLast snapshots (compact_pill num ops snapshots latest)
  unfolding compact_pill mem_color
  compact_pill-ShowsLast snapshots none e = empty-ShowsLast snapshots e
  compact_pill-ShowsLast snapshots (some s) e = (
    s,
    sym e,
    last?-map (cpu_pct_of num ops) snapshots (sym e),
    refl,
    refl,
    refl,
    refl,
    refl,
    refl,
    refl,
    refl,
  )

  -- Whatever is polled, stopped and started: each of the two displays says that it waits exactly when
  -- no snapshot is kept, and otherwise shows the last one that is kept, which is the last sample of
  -- every sparkline. The readings, bars and sparklines of CPU and memory have the colours of their
  -- percentages, the three readings of the pill included.
  pub agent_vitals-ShowsLast :
      (compact : Bool) (es : List (Event num))
      → let h = run_all num es (mounted num) in
        ShowsLast h.snapshots (agent_vitals num ops compact h)
  unfolding agent_vitals mounted LatestIsLast
  agent_vitals-ShowsLast true es =
      compact_pill-ShowsLast _ _ (run_all-LatestIsLast num es (mounted num) refl)
  agent_vitals-ShowsLast false es =
      full_panel-ShowsLast _ _ (run_all-LatestIsLast num es (mounted num) refl)
