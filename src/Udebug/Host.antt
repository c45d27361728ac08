-- ===== src/Udebug/Host.antt =====
-- internal/udebug/manager.go, `normalizeHost`: the key of a host's buffer.
pub mod Key
pub mod Url
use wavecontrol.Prelude.{
  ℕ, Bool, ◌||◌, [], Option, none, some, nat_beq, if◌then◌else◌, Text, codes, is_empty, to_lower,
  trim, trim_space, trim_prefix, before_any, last_index_byte, split_host_port, behind,
}

-- The bytes that end the authority of a URL.
unfoldable pub ends_authority : ℕ → Bool
ends_authority c = nat_beq c b'/' || nat_beq c b'?' || nat_beq c b'#'

unfoldable pub is_bracket : ℕ → Bool
is_bracket c = nat_beq c b'[' || nat_beq c b']'

-- `if host, _, err := net.SplitHostPort(h); err == nil { h = host }`
abbrev pub without_port : Text → Option Text → Text
without_port h none = h
without_port h (some host) = host

-- From the credentials on.
unfoldable pub host_of_authority : Text → Text
host_of_authority authority =
    let host = behind authority (last_index_byte b'@' authority) in
    to_lower (trim_space (trim is_bracket (without_port host (split_host_port host))))

abbrev pub strip_scheme : Text → Text
strip_scheme h = trim_prefix (trim_prefix h (codes "http://")) (codes "https://")

unfoldable pub normalize_host : Text → Text
normalize_host input =
    let h = trim_space input in
    if is_empty h then [] else host_of_authority (before_any ends_authority (strip_scheme h))
