-- ===== src/Hints/Guides/Previews.antt =====
-- frontend/components/HelpOverlay.tsx with frontend/components/ComponentRegistry.tsx: the file types of
-- the guide to the previews are opened by the viewers that it names.
use isolator_v_wasm_sandbox.Common.{
  Text, codes, split, trim, text_eq, ◌≡◌, base_name, List, [], ◌∷◌, ◌++◌, map, All, if◌then◌else◌,
  Option, none,
}
use isolator_v_wasm_sandbox.Preview.{
  FetchState, shown_text, fetched_content, Props, ok, View, data_grid, chart_view, wasm_inspector,
  log_viewer, markdown_viewer, raw_viewer, image_viewer, image_src, view,
}
use isolator_v_wasm_sandbox.Hints.Guides.{PreviewGuide}

-- The extensions that a row names, between slashes.
abbrev pub named : Text → List Text
named ext = map trim (split b'/' ext)

module _ (encode : Text → Text) (session_id : Option Text) (bytes : Text) where
  -- A file that is not in the snapshot.
  abbrev pub fetched_file : Text → Props
  fetched_file path = record {
    file_path = path;
    session_id = session_id;
    inline_content = none;
    inline_b64 = none;
  }

  -- What a file has in the state of its fetch once `bytes` have come for it.
  abbrev pub loaded : Text → FetchState
  loaded path = ok (shown_text (fetched_content path bytes))

  -- The screens that the rows of the guide name, by their words, for a file with the content `bytes`.
  -- The inspector does not get the content.
  abbrev pub described : Text → List (Text × View)
  described path =
      (codes "Sortable, paginated data grid", data_grid bytes)
      ∷ (codes "Auto-detected timeseries bar chart", chart_view bytes)
      ∷ (codes "Sections, exports & imports inspector", wasm_inspector (codes "[binary data]"))
      ∷ (codes "Line-numbered log viewer (ANSI stripped)", log_viewer bytes)
      ∷ (codes "Markdown rendered as plain text", markdown_viewer bytes (base_name path))
      ∷ (codes "Image viewer", image_viewer (image_src encode path session_id none))
      ∷ []

  abbrev pub described_in : List (Text × View) → Text → View
  described_in [] label = raw_viewer bytes
  described_in ((words, screen) ∷ rest) label =
      if text_eq words label then screen else described_in rest label

  abbrev pub IsOpened : Text → PreviewGuide → Type 0
  IsOpened base g =
      All
        (λ ext.
          let path = base ++ ext in
          view encode (fetched_file path) (loaded path) ≡ described_in (described path) g.label)
        (named g.ext)
