-- ===== src/Capture/Colour.antt =====
-- loom-capture/src/convert.rs: the colours of a conversion stay in the limited range of BT.601.
use loom_host.Base.{◌≤◌, arith}
use loom_host.Base.Int.{◌+ℤ◌}
use loom_host.Base.Bytes.{IsByte}
use loom_host.Capture.{Rgb, luma, chroma_u, chroma_v}

abbrev pub AreBytes : Rgb → Type 0
AreBytes (r, g, b) = IsByte r × IsByte g × IsByte b

pub luma-InRange : (c : Rgb) → AreBytes c → (16 ≤ luma c) × (luma c ≤ 235)
unfolding luma
luma-InRange (r, g, b) (hr, hg, hb) = ground arith

pub chroma_u-InRange : (c : Rgb) → AreBytes c → (16 ≤ chroma_u c) × (chroma_u c ≤ 240)
unfolding chroma_u ◌+ℤ◌
chroma_u-InRange (r, g, b) (hr, hg, hb) = ground arith

pub chroma_v-InRange : (c : Rgb) → AreBytes c → (16 ≤ chroma_v c) × (chroma_v c ≤ 240)
unfolding chroma_v ◌+ℤ◌
chroma_v-InRange (r, g, b) (hr, hg, hb) = ground arith
