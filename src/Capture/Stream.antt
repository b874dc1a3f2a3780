-- ===== src/Capture/Stream.antt =====
-- loom-capture/src/stream.rs, and `start` and `fill` of loom-capture/src/lib.rs: the callbacks of a PipeWire
-- stream over the state that they share. What PipeWire delivers is a list of events. A panic is `none`, and
-- additions of `usize` wrap, as in a release build.
use loom_host.Base.{ℕ, ◌+◌, ◌-◌, ◌%◌, ◌^◌, ltb, ◌==◌, ◌&&◌, ◌||◌, if◌then◌else◌}
use loom_host.Base.{
  Bool, true, false, Option, none, some, List, [], ◌∷◌, ◌++◌, length, Result, ok, err,
}
use loom_host.Base.Grid.{or_panic}
use loom_host.Base.Int.{ℤ, pos, negsuc}
use loom_host.Capture.{I420Buffer, new, copy_into, PixelFormat, bgrx, rgbx, slice_from, to_i420}
use loom_host.Capture.Failure.{
  Words, Stage, CaptureError, parse_format, unexpected_pixel_format, said, pipewire, size_mismatch,
  startup_aborted,
}
use loom_host.Capture.Failure.{
  at_main_loop, at_context, at_connect_fd, at_stream, at_listener, at_serialize, at_connect,
  at_stream_error, at_parse_video,
}

abbrev pub Report : Type 0
Report = Result Unit CaptureError

pub record StreamData : Type 0 where
  pub expected : ℕ × ℕ
  pub fmt : Option PixelFormat
  pub slot : Option I420Buffer
  pub spare : Option I420Buffer
  -- the sender of the report is still there
  pub ready : Bool

-- The state of the thread, what it has sent to `start`, and whether the main loop was told to quit.
pub record Loop : Type 0 where
  pub ud : StreamData
  pub sent : List Report
  pub quits : Bool

unfoldable pub report : Report → Loop → Loop
report result l =
    if l.ud.ready
    then record l { ud = record l.ud { ready = false }; sent = l.sent ++ (result ∷ []) }
    else l

abbrev pub quit : Loop → Loop
quit l = record l { quits = true }

-- What the parsers of PipeWire tell of a format.
pub data VideoFormat : Type 0 where
  video_bgra video_bgrx video_rgba video_rgbx : VideoFormat
  other_format : ℕ → VideoFormat

pub record VideoInfo : Type 0 where
  pub format : VideoFormat
  pub width : ℕ
  pub height : ℕ

pub record Parsers (Pod : Type 0) : Type 0 where
  -- `ParamType::Format`
  pub format_id : ℕ
  -- whether the media is video, and whether it is raw
  pub media : Pod → Option (Bool × Bool)
  pub video : Pod → Result VideoInfo Words

abbrev pub pixel_format : VideoFormat → Result PixelFormat CaptureError
pixel_format video_bgra = ok bgrx
pixel_format video_bgrx = ok bgrx
pixel_format video_rgba = ok rgbx
pixel_format video_rgbx = ok rgbx
pixel_format (other_format n) = err (pipewire (unexpected_pixel_format n))

-- The size is compared, and the layout locked in.
abbrev pub lock_in : ℕ → ℕ → Result PixelFormat CaptureError → Loop → Loop × Report
lock_in w h (err e) l = (l, err e)
lock_in w h (ok fmt) l =
    if w == l.ud.expected.0 && h == l.ud.expected.1
    then (report (ok tt) (record l { ud = record l.ud { fmt = some fmt } }), ok tt)
    else (l, err (size_mismatch (w, h) l.ud.expected))

abbrev pub on_video : Result VideoInfo Words → Loop → Loop × Report
on_video (err e) l = (l, err (pipewire (said at_parse_video e)))
on_video (ok info) l = lock_in info.width info.height (pixel_format info.format) l

abbrev pub on_media : Option (Bool × Bool) → Result VideoInfo Words → Loop → Loop × Report
on_media none info l = (l, err (pipewire parse_format))
on_media (some (is_video, is_raw)) info l =
    if is_video && is_raw then on_video info l else (l, ok tt)

unfoldable pub on_format : {Pod : Type 0} → Parsers Pod → Pod → Loop → Loop × Report
on_format p param l = on_media (p.media param) (p.video param) l

-- `as usize`, of an `i32`
abbrev pub as_usize : ℤ → ℕ
as_usize (pos n) = n
as_usize (negsuc n) = 2 ^ 64 - 1 - n

-- A data of a buffer: the stride and the offset of its chunk, and its bytes, if they are mapped.
pub record Chunk : Type 0 where
  pub stride : ℤ
  pub offset : ℕ
  pub bytes : Option (List ℕ)

abbrev pub frame_or_new : Option I420Buffer → ℕ × ℕ → I420Buffer
frame_or_new (some frame) size = frame
frame_or_new none (w, h) = new w h

abbrev pub publish : I420Buffer → Loop → Loop
publish frame l = record l { ud = record l.ud { slot = some frame; spare = l.ud.slot } }

abbrev pub convert_bytes : Option PixelFormat → List ℕ → ℕ → ℕ → Loop → Option Loop
convert_bytes none bytes offset stride l = some l
convert_bytes (some fmt) bytes offset stride l = or_panic (slice_from offset bytes) (λ src.
    or_panic (to_i420 src stride fmt (frame_or_new l.ud.spare l.ud.expected))
      (λ frame. some (publish frame l)))

abbrev pub on_bytes : Option (List ℕ) → ℕ → ℕ → Loop → Option Loop
on_bytes none offset stride l = some l
on_bytes (some bytes) offset stride l =
    if stride == 0 || ltb (length bytes) ((offset + stride) % 2 ^ 64)
    then some l
    else convert_bytes l.ud.fmt bytes offset stride l

-- What `dequeue_buffer` gives is no buffer, or the datas of one.
unfoldable pub on_process : Option (List Chunk) → Loop → Option Loop
on_process none l = some l
on_process (some []) l = some l
on_process (some (data' ∷ datas)) l = on_bytes data'.bytes data'.offset (as_usize data'.stride) l

pub data Event (Pod : Type 0) : Type 0 where
  -- the error, if the new state is one
  state_changed : Option Words → Event Pod
  param_changed : ℕ → Option Pod → Event Pod
  process : Option (List Chunk) → Event Pod
  -- the timer finds the stop flag
  timer : Bool → Event Pod

abbrev pub on_state : Option Words → Loop → Loop
on_state none l = l
on_state (some msg) l = quit (report (err (pipewire (said at_stream_error msg))) l)

abbrev pub refused : Loop × Report → Loop
refused (l, ok done) = l
refused (l, err e) = quit (report (err e) l)

unfoldable pub on_param : {Pod : Type 0} → Parsers Pod → ℕ → Option Pod → Loop → Loop
on_param p id none l = l
on_param p id (some param) l = if id == p.format_id then refused (on_format p param l) else l

unfoldable pub dispatch : {Pod : Type 0} → Parsers Pod → Event Pod → Loop → Option Loop
dispatch p (state_changed new_state) l = some (on_state new_state l)
dispatch p (param_changed id param) l = some (on_param p id param l)
dispatch p (process buffer) l = on_process buffer l
dispatch p (timer stop) l = some (if stop then quit l else l)

-- The main loop: events until one of them quits.
unfoldable pub pump : {Pod : Type 0} → Parsers Pod → List (Event Pod) → Loop → Option Loop
pump p [] l = some l
pump p (e ∷ es) l = if l.quits then some l else or_panic (dispatch p e l) (pump p es)

-- The steps of the setup, each with the error that it gives, if it fails.
pub record Setup : Type 0 where
  pub mainloop : Option Words
  pub context : Option Words
  pub core : Option Words
  pub stream : Option Words
  pub listener : Option Words
  pub pod : Option Words
  pub connection : Option Words

-- A step, and what follows if it does not fail.
abbrev step_or : Stage → Option Words → Option CaptureError → Option CaptureError
step_or stage (some e) rest = some (pipewire (said stage e))
step_or stage none rest = rest

unfoldable pub setup_error : Setup → Option CaptureError
setup_error s = step_or at_main_loop s.mainloop (
    step_or at_context s.context (
      step_or at_connect_fd s.core (
        step_or at_stream s.stream (
          step_or at_listener s.listener
            (step_or at_serialize s.pod (step_or at_connect s.connection none))))))

abbrev pub fresh : ℕ × ℕ → Loop
fresh expected = record {
  ud = record { expected = expected; fmt = none; slot = none; spare = none; ready = true };
  sent = [];
  quits = false;
}

unfoldable pub run : {Pod : Type 0} → Parsers Pod → Setup → ℕ × ℕ → List (Event Pod) → Option Loop
run p setup expected events = elim (setup_error setup) [
  | some e ↦ some (report (err e) (fresh expected))
  | none ↦ pump p events (fresh expected)
]

-- What `start` makes of the first report, which is none if the thread ended without.
unfoldable pub started : List Report → Report
started [] = err startup_aborted
started (first ∷ rest) = first

-- `fill`
unfoldable pub fill : Option I420Buffer → I420Buffer → Option (Bool × I420Buffer)
fill none dst = some (false, dst)
fill (some frame) dst = or_panic (copy_into frame dst) (λ filled. some (true, filled))
