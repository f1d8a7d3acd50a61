-- ===== src/Preview.antt =====
-- frontend/components/ComponentRegistry.tsx: which previewer shows a file, and the fetch of the files
-- that were not delivered inline.
mod Tests
mod JsonTests
mod ClickedTests
pub mod Fetched
pub mod Inline
pub mod Clicked
pub mod Grid
pub mod Log
pub mod Markdown
pub mod Json
pub mod Chart
pub mod Inspector
pub mod Spans
use isolator_v_wasm_sandbox.Common.{
  Text, codes, text_eq, includes, extension, base_name, is_truthy, ℕ, Bool, true, false, not, ◌&&◌,
  ◌||◌, Option, none, some, or_else, is_some, List, [], ◌∷◌, ◌++◌, if◌then◌else◌,
}

pub data FileKind : Type 0 where
  csv json wasm log md image raw : FileKind

abbrev pub viewer_images : List Text
viewer_images =
    codes "png" ∷ codes "jpg" ∷ codes "jpeg" ∷ codes "gif" ∷ codes "svg" ∷ codes "webp" ∷ []

-- The chain of tests of `detectKind`, on the extension.
unfoldable pub kind_of : Text → FileKind
kind_of ext =
    if text_eq ext (codes "csv")
    then csv
    else if includes (codes "json" ∷ codes "plot" ∷ []) ext
    then json
    else if text_eq ext (codes "wasm")
    then wasm
    else if text_eq ext (codes "md")
    then md
    else if includes (codes "log" ∷ codes "txt" ∷ []) ext
    then log
    else if includes viewer_images ext
    then image
    else raw

unfoldable pub detect_kind : Text → FileKind
unfolding kind_of
detect_kind path = kind_of (extension path)

-- `RegistryProps`
pub record Props : Type 0 where
  pub file_path : Text
  pub session_id : Option Text
  pub inline_content : Option Text
  pub inline_b64 : Option Text

pub data FetchState : Type 0 where
  idle loading : FetchState
  error : Text → FetchState
  ok : Text → FetchState

-- What the fetch of a file meets: it throws, or a response fails with a status line, both with the
-- message of the error, or there is a body, given here as its text.
pub data Reply : Type 0 where
  threw : Text → Reply
  body : Text → Reply

-- `string | ArrayBuffer`
pub data Content : Type 0 where
  text : Text → Content
  array_buffer : Text → Content

abbrev pub is_image_kind : FileKind → Bool
is_image_kind image = true
is_image_kind _ = false

abbrev pub is_wasm_kind : FileKind → Bool
is_wasm_kind wasm = true
is_wasm_kind _ = false

-- The result of `fetchFileContent`, where it has one: `res.arrayBuffer()` or `res.text()`.
unfoldable pub fetched_content : Text → Text → Content
fetched_content path bytes =
    if is_wasm_kind (detect_kind path) then array_buffer bytes else text bytes

abbrev pub shown_text : Content → Text
shown_text (text content) = content
shown_text (array_buffer bytes) = codes "[binary data]"

unfoldable pub needs_fetch : Props → Bool
needs_fetch p =
    not (is_image_kind (detect_kind p.file_path))
    && not (is_some p.inline_content)
    && not (is_some p.inline_b64)

abbrev pub has_session : Option Text → Bool
has_session none = false
has_session (some id) = is_truthy id

-- The effect: the state is reset, and `load` runs up to its first `await`.
unfoldable pub load_begins : Props → FetchState
load_begins p =
    if needs_fetch p
    then if has_session p.session_id then loading else error (codes "No active session")
    else idle

-- What the fetch of a file has met.
pub record Answer : Type 0 where
  pub asked : Text
  pub reply : Reply

-- The rest of `load`, for the file that it was begun for.
abbrev pub settled : Text → Reply → FetchState
settled path (threw message) = error message
settled path (body bytes) = ok (shown_text (fetched_content path bytes))

-- The loads that end after an effect: its own, and those that were begun for files that were open
-- before. Nothing cancels them, and each of them sets the state.
unfoldable pub load_ends : List Answer → FetchState → FetchState
load_ends [] state = state
load_ends (a ∷ answers) state = load_ends answers (settled a.asked a.reply)

-- What is rendered.
pub data View : Type 0 where
  image_viewer : (src : Text) → View
  data_grid chart_view wasm_inspector log_viewer raw_viewer : Text → View
  markdown_viewer : (raw title : Text) → View
  loading_pane : View
  error_pane : Text → View

-- `MIME_FOR_EXT[ext] ?? "image/png"`
abbrev pub mime_of : Text → Text
mime_of ext =
    if text_eq ext (codes "svg")
    then codes "image/svg+xml"
    else if text_eq ext (codes "jpg") || text_eq ext (codes "jpeg")
    then codes "image/jpeg"
    else if text_eq ext (codes "gif")
    then codes "image/gif"
    else if text_eq ext (codes "webp")
    then codes "image/webp"
    else codes "image/png"

module _ (encode : Text → Text) where
  abbrev api_src : Text → Option Text → Text
  api_src path none = []
  api_src path (some id) =
      if is_truthy id then codes "/api/v1/vfs/" ++ id ++ codes "/file?path=" ++ encode path else []

  -- The `src` of the image; `encode` is `encodeURIComponent`.
  unfoldable pub image_src : Text → Option Text → Option Text → Text
  image_src path session_id inline_b64 =
      let b64 : Text = or_else inline_b64 [] in
      if is_truthy b64
      then codes "data:" ++ mime_of (extension path) ++ codes ";base64," ++ b64
      else api_src path session_id

  -- The switch for content that was delivered inline. WASM has no case there.
  abbrev pub inline_view : FileKind → Text → Text → View
  inline_view csv path content = data_grid content
  inline_view json path content = chart_view content
  inline_view md path content = markdown_viewer content (base_name path)
  inline_view log path content = log_viewer content
  inline_view _ path content = raw_viewer content

  -- The switch for content that was fetched.
  abbrev pub fetched_view : FileKind → Text → Text → View
  fetched_view csv path content = data_grid content
  fetched_view json path content = chart_view content
  fetched_view wasm path content = wasm_inspector content
  fetched_view md path content = markdown_viewer content (base_name path)
  fetched_view log path content = log_viewer content
  fetched_view _ path content = raw_viewer content

  abbrev pub state_view : Props → FetchState → View
  state_view p idle = loading_pane
  state_view p loading = loading_pane
  state_view p (error message) = error_pane message
  state_view p (ok content) = fetched_view (detect_kind p.file_path) p.file_path content

  abbrev pub content_view : Props → FetchState → Option Text → View
  content_view p state none = state_view p state
  content_view p state (some content) = inline_view (detect_kind p.file_path) p.file_path content

  unfoldable pub view : Props → FetchState → View
  view p state =
      if is_image_kind (detect_kind p.file_path)
      then image_viewer (image_src p.file_path p.session_id p.inline_b64)
      else content_view p state p.inline_content
