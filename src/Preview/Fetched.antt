-- ===== src/Preview/Fetched.antt =====
-- frontend/components/ComponentRegistry.tsx: what is shown for a file that has to be fetched.
use isolator_v_wasm_sandbox.Common.{
  [], ◌∷◌, Text, codes, ◌≡◌, refl, true, false, none, if◌then◌else◌, Bool-cases, inl, inr, arith,
}
use isolator_v_wasm_sandbox.Preview.{
  FileKind, detect_kind, Props, FetchState, Reply, threw, body, is_image_kind, is_wasm_kind,
  needs_fetch, load_begins, load_ends, View, wasm_inspector, error_pane, fetched_content,
  shown_text, fetched_view, content_view, view,
}

-- The screen that goes with a reply: the error, the inspector on a text of two words for a WASM file,
-- and otherwise the viewer of the file's extension on the text that came.
unfoldable pub fetched_screen : (Text → Text) → Props → Reply → View
fetched_screen encode p (threw message) = error_pane message
fetched_screen encode p (body bytes) =
    if is_wasm_kind (detect_kind p.file_path)
    then wasm_inspector (codes "[binary data]")
    else fetched_view encode (detect_kind p.file_path) p.file_path bytes

needs_fetch-kind :
    (p : Props) → needs_fetch p ≡ true → is_image_kind (detect_kind p.file_path) ≡ false
unfolding needs_fetch
needs_fetch-kind p h = ground arith

needs_fetch-content : (p : Props) → needs_fetch p ≡ true → p.inline_content ≡ none
unfolding needs_fetch
needs_fetch-content p h = ground arith

wasm_view :
    (encode : Text → Text) (kind : FileKind) (path bytes : Text)
    → is_wasm_kind kind ≡ true
    → fetched_view encode kind path bytes ≡ wasm_inspector bytes
wasm_view encode FileKind.wasm path bytes h = refl
wasm_view encode FileKind.csv path bytes h = ground arith
wasm_view encode FileKind.json path bytes h = ground arith
wasm_view encode FileKind.log path bytes h = ground arith
wasm_view encode FileKind.md path bytes h = ground arith
wasm_view encode FileKind.image path bytes h = ground arith
wasm_view encode FileKind.raw path bytes h = ground arith

content_view-body :
    (encode : Text → Text) (p : Props) (bytes : Text)
    → p.inline_content ≡ none
    → content_view encode p
        (FetchState.ok (shown_text (fetched_content p.file_path bytes)))
        p.inline_content
      ≡ fetched_screen encode p (body bytes)
unfolding fetched_screen fetched_content
content_view-body encode p bytes h = elim (Bool-cases (is_wasm_kind (detect_kind p.file_path))) [
  | inl w ↦ rw w (rw h (wasm_view encode (detect_kind p.file_path) p.file_path _ w))
  | inr w ↦ rw w (rw h refl)
]

-- A file that is not an image and was not delivered inline, once its fetch has ended
-- and while no other load is out:
-- an error is shown with its message; a WASM file is shown by the inspector, which gets the text
-- [binary data] whatever was fetched; any other file is shown by the viewer of its extension, on the
-- text that was fetched.
pub view-load_ends :
    (encode : Text → Text) (reply : Reply) (p : Props)
    → needs_fetch p ≡ true
    → view encode p (load_ends (record { asked = p.file_path; reply = reply } ∷ []) (load_begins p))
      ≡ fetched_screen encode p reply
unfolding view load_begins load_ends fetched_screen fetched_content
view-load_ends encode (threw message) p h =
    rw (needs_fetch-kind p h) (rw (needs_fetch-content p h) refl)
view-load_ends encode (body bytes) p h =
    rw (needs_fetch-kind p h) (content_view-body encode p bytes (needs_fetch-content p h))
