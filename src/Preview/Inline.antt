-- ===== src/Preview/Inline.antt =====
-- frontend/components/ComponentRegistry.tsx with the file selection of frontend/components/
-- ExecutionConsole.tsx: what is shown for a file of the inline snapshot.
use isolator_v_wasm_sandbox.Common.{
  last?, Option, none, Text, codes, text_eq, text_eq_iff, includes, extension, is_truthy, ◌≡◌, refl,
  ap, ◌∙◌, Bool, true, false, ◌||◌, Bool-cases, inl, inr, some, List, [], ◌∷◌, ◌++◌, if◌then◌else◌,
  arith, All,
}
use mathlib.Core.Path.{subst}
use Prim.{tt}
use isolator_v_wasm_sandbox.Vfs.{lookup}
use isolator_v_wasm_sandbox.Console.{Console, Decoder, is_image, handle_file_select}
use isolator_v_wasm_sandbox.Preview.{
  image, raw, viewer_images, kind_of, detect_kind, Props, Reply, is_image_kind, needs_fetch,
  load_begins, load_ends, Answer, FetchState, idle, threw, body, settled, shown_text,
  fetched_content, is_wasm_kind, state_view, error_pane, raw_viewer, View, image_viewer,
  loading_pane, image_src, inline_view, mime_of, view,
}

-- The props that the console hands to the registry for the file that it previews.
abbrev pub props_of : Text → Console → Props
props_of path s = record {
  file_path = path;
  session_id = s.session_id;
  inline_content = s.inline_file_content;
  inline_b64 = s.inline_file_b64;
}

-- What is on the screen once a file has been selected and the answers have come, to its fetch, if
-- there is one, or to those of files that were open before.
unfoldable pub shown : (Text → Text) → Decoder → List Answer → Text → Console → View
unfolding handle_file_select load_begins load_ends view needs_fetch
shown encode decode answers path s =
    let p = props_of path (handle_file_select decode path s) in
    view encode p (load_ends answers (load_begins p))

-- The two extensions that the console takes for images and the registry does not.
abbrev pub icons : List Text
icons = codes "ico" ∷ codes "bmp" ∷ []

-- A property of all the words of a list holds of a text that the list has.
includes_elim :
    (P : Text → Type 0) (xs : List Text) (a : Text) → All P xs → includes xs a ≡ true → P a
unfolding includes
includes_elim P [] a all h = ground arith
includes_elim P (x ∷ xs) a (px, all) h = elim (Bool-cases (text_eq x a)) [
  | inl e ↦ subst P ((text_eq_iff x a).0 e) px
  | inr e ↦ includes_elim P xs a all (rw e at h)
]

kind_of-image : (ext : Text) → includes viewer_images ext ≡ true → kind_of ext ≡ image
unfolding kind_of includes text_eq
kind_of-image ext h =
    includes_elim (λ e. kind_of e ≡ image) viewer_images ext
      (refl, (refl, (refl, (refl, (refl, (refl, tt)))))) h

kind_of-icon : (ext : Text) → includes icons ext ≡ true → kind_of ext ≡ raw
unfolding kind_of includes text_eq
kind_of-icon ext h = includes_elim (λ e. kind_of e ≡ raw) icons ext (refl, (refl, tt)) h

kind_of-ne_image :
    (ext : Text) → includes viewer_images ext ≡ false → is_image_kind (kind_of ext) ≡ false
unfolding kind_of
kind_of-ne_image ext h = ground arith

swap_or :
    (a b c d e f g : Bool)
    → (a || (b || (c || (d || (f || (e || g))))))
      ≡ ((a || (b || (c || (d || (e || (f || false)))))) || g)
swap_or a b c d e f g = ground arith

is_image_lem :
    (path : Text)
    → is_image path ≡ (includes viewer_images (extension path) || includes icons (extension path))
unfolding is_image includes
is_image_lem path =
    let is : Text → Bool = λ w. text_eq w (extension path) in
    swap_or (is (codes "png")) (is (codes "jpg")) (is (codes "jpeg")) (is (codes "gif"))
      (is (codes "svg")) (is (codes "webp")) (includes icons (extension path))

detect_kind_lem : (path : Text) → detect_kind path ≡ kind_of (extension path)
unfolding detect_kind
detect_kind_lem path = refl

-- The screen of a file without content, by the last answer to a load of another file.
abbrev pub late_view : Option Answer → View
late_view none = loading_pane
late_view (some a) = elim a.reply [
  | threw message ↦ error_pane message
  | body bytes ↦
      raw_viewer (if is_wasm_kind (detect_kind a.asked) then codes "[binary data]" else bytes)
]

state_after : Option Answer → FetchState → FetchState
state_after none state = state
state_after (some a) state = settled a.asked a.reply

same_after :
    (a : Answer) (answers : List Answer) (s u : FetchState)
    → state_after (last? (a ∷ answers)) s ≡ state_after (last? (a ∷ answers)) u
unfolding state_after
same_after a [] s u = refl
same_after a (b ∷ answers) s u = same_after b answers s u

load_ends-last :
    (answers : List Answer) (state : FetchState)
    → load_ends answers state ≡ state_after (last? answers) state
unfolding load_ends state_after
load_ends-last [] state = refl
load_ends-last (a ∷ []) state = refl
load_ends-last (a ∷ b ∷ answers) state =
    load_ends-last (b ∷ answers) (settled a.asked a.reply)
    ∙ same_after b answers (settled a.asked a.reply) state

content_of :
    (path bytes : Text)
    → shown_text (fetched_content path bytes)
      ≡ (if is_wasm_kind (detect_kind path) then codes "[binary data]" else bytes)
unfolding fetched_content
content_of path bytes = elim (Bool-cases (is_wasm_kind (detect_kind path))) [
  | inl e ↦ rw e refl
  | inr e ↦ rw e refl
]

state_after-late_view :
    (encode : Text → Text) (p : Props) (o : Option Answer)
    → detect_kind p.file_path ≡ raw
    → state_view encode p (state_after o idle) ≡ late_view o
unfolding state_after
state_after-late_view encode p none k = refl
state_after-late_view encode p (some a) k = at a.reply
  where
    at :
        (r : Reply)
        → state_view encode p (settled a.asked r)
          ≡ late_view (some (record { asked = a.asked; reply = r }))
    at (threw message) = refl
    at (body bytes) = rw k (ap (λ (t : Text). raw_viewer t) (content_of a.asked bytes))

late-screen :
    (encode : Text → Text) (p : Props) (answers : List Answer)
    → detect_kind p.file_path ≡ raw
    → state_view encode p (load_ends answers idle) ≡ late_view (last? answers)
late-screen encode p answers k =
    ap (state_view encode p) (load_ends-last answers idle)
    ∙ state_after-late_view encode p (last? answers) k

-- The screen that goes with a file of the snapshot, by its extension.
unfoldable pub expected : (Text → Text) → List Answer → Text → Text → Text → View
expected encode answers path b64 content =
    if includes viewer_images (extension path)
    then image_viewer (codes "data:" ++ mime_of (extension path) ++ codes ";base64," ++ b64)
    else if includes icons (extension path)
    then late_view (last? answers)
    else inline_view encode (detect_kind path) path content

-- A file of the snapshot whose content is not empty and can be decoded, once it has been selected and
-- whatever answers come to loads of files that were open before: it is shown as an image made of its
-- data if its extension is one of the viewer's six. If it is ico or bmp, it stays on the loading pane
-- as long as no such answer comes, and then the last of them is shown in its place. Otherwise the
-- viewer of its extension shows the decoded text.
pub shown-inline :
    (encode : Text → Text) (decode : Decoder) (answers : List Answer) (path b64 content : Text)
    (s : Console)
    → lookup s.inline_vfs_snapshot path ≡ some b64
    → is_truthy b64 ≡ true
    → decode b64 ≡ some content
    → shown encode decode answers path s ≡ expected encode answers path b64 content
unfolding shown expected image_src needs_fetch
shown-inline encode decode answers path b64 content s h t d =
    elim (Bool-cases (includes viewer_images (extension path))) [
      | inl v ↦
          let k : detect_kind path ≡ image =
            detect_kind_lem path ∙ kind_of-image (extension path) v in
          let i : is_image path ≡ true = rw is_image_lem (rw v refl) in
          rw h (rw t (rw i (rw k (rw v (rw t refl)))))
      | inr v ↦ elim (Bool-cases (includes icons (extension path))) [
        | inl c ↦
            let k : detect_kind path ≡ raw =
              detect_kind_lem path ∙ kind_of-icon (extension path) c in
            let i : is_image path ≡ true = rw is_image_lem (rw v (rw c refl)) in
            rw h (
              rw t (
                rw i (
                  rw k (
                    rw v (
                      rw c (
                        late-screen encode
                          (record {
                            file_path = path;
                            session_id = none;
                            inline_content = none;
                            inline_b64 = none;
                          })
                          answers k))))))
        | inr c ↦
            let k : is_image_kind (detect_kind path) ≡ false =
              ap is_image_kind (detect_kind_lem path) ∙ kind_of-ne_image (extension path) v in
            let i : is_image path ≡ false = rw is_image_lem (rw v (rw c refl)) in
            rw h (rw t (rw i (rw k (rw v (rw c (rw d refl))))))
      ]
    ]
