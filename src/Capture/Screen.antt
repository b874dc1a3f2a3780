-- ===== src/Capture/Screen.antt =====
-- loom-capture/src/sck.rs: the sample handler of a ScreenCaptureKit stream, the choice of a display, and what is
-- made of the replies of the system. What the system hands over is input; a panic is `none`.
use loom_host.Base.{ℕ, ltb, ◌==◌, if◌then◌else◌}
use loom_host.Base.{Bool, true, Option, none, some, List, [], ◌∷◌, Result, ok, err}
use loom_host.Base.Grid.{or_panic}
use loom_host.Base.Int.{ℤ}
use loom_host.Capture.{I420Buffer}
use loom_host.Capture.Failure.{
  Words, CaptureError, said, no_displays, no_content, screen_capture_kit, permission_denied,
  display_not_found, at_content, at_start, other_code,
}
use loom_host.Capture.Nv12.{split_nv12}
use loom_host.Capture.Stream.{Report, frame_or_new}

-- A plane of a pixel buffer: its bytes, if it has an address, and the bytes per row.
pub record Plane : Type 0 where
  pub bytes : Option (List ℕ)
  pub stride : ℕ

pub record PixelBuffer : Type 0 where
  -- the format is `420v`
  pub is_420v : Bool
  -- locking the base address succeeds
  pub locks : Bool
  pub y : Plane
  pub uv : Plane

pub record Output : Type 0 where
  pub size : ℕ × ℕ
  pub slot : Option I420Buffer
  pub spare : Option I420Buffer

abbrev pub convert_planes :
    Option (List ℕ) → ℕ → Option (List ℕ) → ℕ → I420Buffer → Option I420Buffer
convert_planes (some y) y_stride (some uv) uv_stride frame =
    split_nv12 y y_stride uv uv_stride frame
convert_planes none y_stride uv uv_stride frame = some frame
convert_planes (some y) y_stride none uv_stride frame = some frame

-- `publish`, of a sample buffer that has an image or not.
unfoldable pub publish : Option PixelBuffer → Output → Option Output
publish none o = some o
publish (some pixels) o =
    let frame = frame_or_new o.spare o.size in
    let taken = record o { spare = none } in
    if pixels.is_420v
    then (if pixels.locks
        then or_panic
            (convert_planes pixels.y.bytes pixels.y.stride pixels.uv.bytes pixels.uv.stride frame)
            (λ done. some (record taken { slot = some done; spare = o.slot }))
        else some taken)
    else some taken

-- The handler ignores what is not of the screen.
unfoldable pub did_output : Bool → Option PixelBuffer → Output → Option Output
did_output is_screen sample o = if is_screen then publish sample o else some o

abbrev pub new_output : ℕ × ℕ → Output
new_output size = record { size = size; slot = none; spare = none }

unfoldable pub deliver : List (Bool × Option PixelBuffer) → Output → Option Output
deliver [] o = some o
deliver ((is_screen, sample) ∷ samples) o =
    or_panic (did_output is_screen sample o) (deliver samples)

-- An `NSError`: its code, and its description.
pub record NsError : Type 0 where
  pub code : ℤ
  pub description : Words

-- A display of the system.
pub record Display : Type 0 where
  pub id : ℕ
  pub width : ℕ
  pub height : ℕ

-- `map_error`, of whether the code is that of a user who declined.
unfoldable pub map_error : (ℤ → Bool) → NsError → CaptureError
map_error declined e =
    if declined e.code
    then permission_denied
    else screen_capture_kit (said other_code e.description)

-- The reply to a query for the content: an error, or the content, or neither.
abbrev pub content_reply :
    (ℤ → Bool) → Option NsError → Option (List Display) → Result (List Display) CaptureError
content_reply declined (some e) content = err (map_error declined e)
content_reply declined none (some content) = ok content
content_reply declined none none = err (screen_capture_kit no_content)

-- `shareable_content`, of the reply that comes in time, if one does.
unfoldable pub shareable_content :
    (ℤ → Bool)
    → Option (Option NsError × Option (List Display))
    → Result (List Display) CaptureError
shareable_content declined none = err (screen_capture_kit (said at_content []))
shareable_content declined (some (e, content)) = content_reply declined e content

-- `start_capture`, likewise.
unfoldable pub start_capture : (ℤ → Bool) → Option (Option NsError) → Report
start_capture declined none = err (screen_capture_kit (said at_start []))
start_capture declined (some none) = ok tt
start_capture declined (some (some e)) = err (map_error declined e)

abbrev pub find_id : ℕ → List Display → Option Display
find_id id [] = none
find_id id (d ∷ ds) = if d.id == id then some d else find_id id ds

abbrev pub ok_or : Option Display → CaptureError → Result Display CaptureError
ok_or (some d) e = ok d
ok_or none e = err e

abbrev pub first : List Display → Option Display
first [] = none
first (d ∷ ds) = some d

abbrev pub pick : Option ℕ → Result (List Display) CaptureError → Result Display CaptureError
pick target (err e) = err e
pick none (ok ds) = ok_or (first ds) (screen_capture_kit no_displays)
pick (some id) (ok ds) = ok_or (find_id id ds) (display_not_found id)

unfoldable pub pick_display :
    (ℤ → Bool)
    → Option ℕ
    → Option (Option NsError × Option (List Display))
    → Result Display CaptureError
pick_display declined target reply = pick target (shareable_content declined reply)

pub data PixelType : Type 0 where
  bi_planar_420_video_range : PixelType

-- A `CMTime`, of which the flags say only that it is valid.
pub record Time : Type 0 where
  pub value : ℕ
  pub timescale : ℕ
  pub is_valid : Bool
  pub epoch : ℕ

pub record Configuration : Type 0 where
  pub width : ℕ
  pub height : ℕ
  pub pixel_format : PixelType
  pub minimum_frame_interval : Time
  pub queue_depth : ℕ
  pub shows_cursor : Bool

-- `configuration`, of a refresh rate within `i32`.
unfoldable pub configuration : ℕ → ℕ → ℕ → Configuration
configuration width height refresh = record {
  width = width;
  height = height;
  pixel_format = bi_planar_420_video_range;
  minimum_frame_interval = record {
    value = 1;
    timescale = if ltb refresh 1 then 1 else refresh;
    is_valid = true;
    epoch = 0;
  };
  queue_depth = 3;
  shows_cursor = true;
}
