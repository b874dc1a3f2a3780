-- ===== src/Capture/Failure.antt =====
-- loom-capture/src/lib.rs: the errors of a capture. Of a message the model keeps which step says it and the
-- words of the library that failed.
use loom_host.Base.{ℕ, List}

abbrev pub Words : Type 0
Words = List ℕ

-- The step that a message names.
pub data Stage : Type 0 where
  at_main_loop at_context at_connect_fd at_stream at_listener at_serialize at_connect : Stage
  at_stream_error at_parse_video : Stage
  at_content at_start other_code : Stage

pub data Message : Type 0 where
  parse_format no_displays no_content : Message
  unexpected_pixel_format : ℕ → Message
  said : Stage → Words → Message

-- `CaptureError`
pub data CaptureError : Type 0 where
  portal pipewire : Message → CaptureError
  size_mismatch : ℕ × ℕ → ℕ × ℕ → CaptureError
  startup_aborted permission_denied : CaptureError
  screen_capture_kit : Message → CaptureError
  display_not_found : ℕ → CaptureError
