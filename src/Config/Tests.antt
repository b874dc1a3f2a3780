-- ===== src/Config/Tests.antt =====
-- loomd/src/main.rs: runs of `resolve_streams`, and its theorem at a concrete input.
use loom_host.Base.{ℕ, ◌^◌, ◌<◌, ◌≡◌, refl, true, false, none, some, List, [], ◌∷◌, length, ok, err}
use loom_host.Base.Int.{pos, negsuc}
use loom_host.Base.Text.{
  same, split, pieces, trim, is_whitespace, parse_u32, read_number, read_digits,
}
use loom_host.Control.Codes.{ascii}
use loom_host.Config.{
  StreamSpec, DisplayInfo, Args, sck, not_a_display, not_connected, unsupported, base_params,
  spec_of, specs, select, chosen, fan_out, resolve_streams,
}
use loom_host.Config.Streams.{Resolved, Numbered, resolve_streams-Resolved}

abbrev left_display : DisplayInfo
left_display = record { id = 7; width = 1920; height = 1080; x = negsuc 1919; y = pos 0 }

abbrev main_display : DisplayInfo
main_display = record { id = 31; width = 3840; height = 2160; x = pos 0; y = pos 0 }

abbrev listed : List DisplayInfo
listed = main_display ∷ left_display ∷ []

abbrev args_of : List ℕ → Args
args_of displays = record { width = 2560; height = 1440; source = sck; displays = displays }

abbrev both : Args
both = args_of (ascii "7, 31")

abbrev two_streams : List StreamSpec
two_streams =
    spec_of (base_params both) 0 left_display ∷ spec_of (base_params both) 1 main_display ∷ []

two_resolved : resolve_streams true (some listed) both ≡ ok two_streams
unfolding resolve_streams fan_out chosen select specs same pieces split trim is_whitespace parse_u32
    read_number read_digits
two_resolved = refl

not_numeric : resolve_streams true (some listed) (args_of (ascii "7,main")) ≡ err not_a_display
unfolding resolve_streams fan_out chosen select specs same pieces split trim is_whitespace parse_u32
    read_number read_digits
not_numeric = refl

unknown_display : resolve_streams true (some listed) (args_of (ascii "8")) ≡ err not_connected
unfolding resolve_streams fan_out chosen select specs same pieces split trim is_whitespace parse_u32
    read_number read_digits
unknown_display = refl

elsewhere : resolve_streams false none (args_of (ascii "all")) ≡ err unsupported
unfolding resolve_streams same
elsewhere = refl

resolve_streams-Resolved_example :
    (0 < length two_streams)
    × Resolved true (some listed) both two_streams
    × (length two_streams < 2 ^ 16 → Numbered 0 two_streams)
resolve_streams-Resolved_example =
    resolve_streams-Resolved true (some listed) both two_streams two_resolved
