-- ===== src/Control/Codes.antt =====
-- loom-proto/src/control.rs and errors.rs: the registered message types, the error codes and their
-- names.
use loom_host.Base.{ℕ, ◌==◌, if◌then◌else◌, List, [], ◌∷◌}
use Prim.Native.Char.{code}
use Prim.Native.String.{String}

abbrev pub hello : ℕ
hello = 0x01

abbrev pub welcome : ℕ
welcome = 0x02

abbrev pub config : ℕ
config = 0x03

abbrev pub config_ack : ℕ
config_ack = 0x04

abbrev pub start : ℕ
start = 0x05

abbrev pub input : ℕ
input = 0x10

abbrev pub idr_request : ℕ
idr_request = 0x20

abbrev pub stats : ℕ
stats = 0x21

abbrev pub viewport : ℕ
viewport = 0x22

abbrev pub clock_ping : ℕ
clock_ping = 0x30

abbrev pub clock_pong : ℕ
clock_pong = 0x31

abbrev pub error : ℕ
error = 0x40

abbrev pub bye : ℕ
bye = 0x41

abbrev pub pair_a : ℕ
pair_a = 0x50

abbrev pub pair_b : ℕ
pair_b = 0x51

abbrev pub pair_c : ℕ
pair_c = 0x52

abbrev pub pair_result : ℕ
pair_result = 0x53

abbrev pub no_error : ℕ
no_error = 0x00

abbrev pub version_unsupported : ℕ
version_unsupported = 0x01

abbrev pub busy : ℕ
busy = 0x02

abbrev pub no_common_codec : ℕ
no_common_codec = 0x03

abbrev pub violation : ℕ
violation = 0x04

abbrev pub datagram_unsupported : ℕ
datagram_unsupported = 0x05

abbrev pub auth_failed : ℕ
auth_failed = 0x06

abbrev pub internal : ℕ
internal = 0x07

-- The bytes of an ASCII text.
abbrev pub ascii : String → List ℕ
ascii String.[] = []
ascii (String.◌∷◌ c s) = code c ∷ ascii s

-- `errors::name`
unfoldable pub name : ℕ → List ℕ
name c =
    if c == no_error
    then ascii "NONE"
    else if c == version_unsupported
    then ascii "VERSION_UNSUPPORTED"
    else if c == busy
    then ascii "BUSY"
    else if c == no_common_codec
    then ascii "NO_COMMON_CODEC"
    else if c == violation
    then ascii "PROTOCOL_VIOLATION"
    else if c == datagram_unsupported
    then ascii "DATAGRAM_UNSUPPORTED"
    else if c == auth_failed
    then ascii "AUTH_FAILED"
    else ascii "INTERNAL"
