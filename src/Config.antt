-- ===== src/Config.antt =====
-- loomd/src/conn.rs, main.rs and media/mod.rs: the streams that the host serves, as the command
-- line picks them and as the connection driver hands them on.
pub mod Streams
mod Tests
use loom_host.Base.{ℕ, suc, ◌+◌, ◌%◌, ◌^◌, ◌==◌, if◌then◌else◌, Bool, Option, none, some}
use loom_host.Base.{List, [], ◌∷◌, map, find, drop, Result, ok, err, ◌>>=◌}
use loom_host.Base.Int.{ℤ, pos}
use loom_host.Base.Text.{same, pieces, comma, trim, parse_u32}
use loom_host.Control.Codes.{ascii}
use loom_host.Session.{MediaParams, StreamConfig, default_params}

pub data CaptureSource : Type 0 where
  synthetic portal sck : CaptureSource

pub data EncoderKind : Type 0 where
  x265 nvenc video_toolbox : EncoderKind

pub record StreamSpec : Type 0 where
  pub stream_id : ℕ
  pub params : MediaParams
  pub source : CaptureSource
  pub display : Option ℕ
  pub x : ℤ
  pub y : ℤ

pub record HostCfg : Type 0 where
  pub name : List ℕ
  pub streams : List StreamSpec
  pub encoder : EncoderKind
  pub drop_percent : ℕ

abbrev pub head? {ℓ} : {A : Type ℓ} → List A → Option A
head? [] = none
head? (a ∷ as') = some a

-- `&self.streams[0]`, which panics if there is none.
unfoldable pub primary : HostCfg → Option StreamSpec
primary cfg = head? cfg.streams

abbrev pub config_of_spec : StreamSpec → StreamConfig
config_of_spec s = record { stream_id = s.stream_id; params = s.params; x = s.x; y = s.y }

-- `self.streams[1..]`, under a primary stream.
unfoldable pub extra_stream_configs : HostCfg → List StreamConfig
extra_stream_configs cfg = map config_of_spec (drop 1 cfg.streams)

-- `DisplayInfo` of loom-capture/src/sck.rs
pub record DisplayInfo : Type 0 where
  pub id : ℕ
  pub width : ℕ
  pub height : ℕ
  pub x : ℤ
  pub y : ℤ

-- The arguments that `resolve_streams` reads.
pub record Args : Type 0 where
  pub width : ℕ
  pub height : ℕ
  pub source : CaptureSource
  pub displays : List ℕ

-- The errors of `resolve_streams`, without their texts.
pub data Refusal : Type 0 where
  needs_sck capture_failed not_a_display not_connected no_displays unsupported : Refusal

abbrev pub base_params : Args → MediaParams
base_params a = record default_params { width = a.width; height = a.height }

-- `(i + 1) as u16`, and 0 for the first display.
abbrev pub id_of : ℕ → ℕ
id_of i = if i == 0 then 0 else (i + 1) % 2 ^ 16

abbrev pub spec_of : MediaParams → ℕ → DisplayInfo → StreamSpec
spec_of base i d = record {
  stream_id = id_of i;
  params = record base { width = d.width; height = d.height };
  source = sck;
  display = some d.id;
  x = d.x;
  y = d.y;
}

-- `selected.iter().enumerate().map(…)`, from the index `i` on.
unfoldable pub specs : MediaParams → ℕ → List DisplayInfo → List StreamSpec
specs base i [] = []
specs base i (d ∷ ds) = spec_of base i d ∷ specs base (i + 1) ds

-- The loop over the tokens of `--displays`.
unfoldable pub select : List DisplayInfo → List (List ℕ) → Result (List DisplayInfo) Refusal
select available [] = ok []
select available (tok ∷ toks) = elim (parse_u32 (trim tok)) [
  | none ↦ err not_a_display
  | some id ↦ elim (find (λ (d : DisplayInfo). d.id == id) available) [
    | none ↦ err not_connected
    | some d ↦ select available toks >>= λ ds. ok (d ∷ ds)
  ]
]

abbrev pub is_sck : CaptureSource → Bool
is_sck sck = Bool.true
is_sck _ = Bool.false

-- The displays that are asked for, of those that the capture lists.
unfoldable pub chosen : List DisplayInfo → List ℕ → Result (List DisplayInfo) Refusal
chosen available displays =
    if same displays (ascii "all") then ok available else select available (pieces comma displays)

-- The part of `resolve_streams` that a macOS build has; `listed` is what `displays()` gives.
unfoldable pub fan_out : Option (List DisplayInfo) → Args → Result (List StreamSpec) Refusal
fan_out listed a =
    if is_sck a.source
    then elim listed [
      | none ↦ err capture_failed
      | some available ↦ chosen available a.displays >>= λ selected. elim selected [
        | [] ↦ err no_displays
        | d ∷ ds ↦ ok (specs (base_params a) 0 (d ∷ ds))
      ]
    ]
    else err needs_sck

-- The one stream of `--displays main`.
abbrev pub main_spec : Args → StreamSpec
main_spec a = record {
  stream_id = 0;
  params = base_params a;
  source = a.source;
  display = none;
  x = pos 0;
  y = pos 0;
}

-- `macos` tells the build; the other builds serve `main` only.
unfoldable pub resolve_streams :
    Bool → Option (List DisplayInfo) → Args → Result (List StreamSpec) Refusal
resolve_streams macos listed a =
    if same a.displays (ascii "main")
    then ok (main_spec a ∷ [])
    else if macos
    then fan_out listed a
    else err unsupported
