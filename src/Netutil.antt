-- ===== src/Netutil.antt =====
-- internal/netutil: which of http and https a device is reached by. The network is an argument:
-- whether a TCP connection to a port of a host is made within a time. The cache is a `sync.Map`: a
-- load, a store and a deletion is one step each, and nothing holds a lock from one to the next, so
-- that `ResolveScheme` is two steps where it probes.
pub mod Overlap
pub mod Stable
mod Examples
use wavecontrol.Prelude.{
  ℕ, ◌+◌, ◌*◌, Bool, ◌&&◌, ◌||◌, Option, none, some, ltb, if◌then◌else◌, Text, codes, text_beq,
  is_empty, pos_part, leb_ℤ, ℤ, pos, nat_eq, int_eq, text_eq,
}
use wavecontrol.GoMap.{GoMap, insert, lookup, delete}

abbrev pub https : Text
https = codes "https"

abbrev pub http : Text
http = codes "http"

abbrev pub millisecond : ℕ
millisecond = 1000000

-- `net.DialTimeout("tcp", ...)` by host, port and timeout in nanoseconds.
abbrev pub Dial : Type 0
Dial = Text → ℕ → ℕ → Bool

abbrev pub dial_tcp : Dial → Text → ℕ → ℤ → Bool
dial_tcp dial host port timeout =
    dial host port (if leb_ℤ timeout (pos 0) then 500 * millisecond else pos_part timeout)

abbrev pub probe_scheme : Dial → Text → ℤ → Text
probe_scheme dial ip timeout =
    if is_empty ip
    then https
    else if dial_tcp dial ip 443 timeout
    then https
    else if dial_tcp dial ip 80 timeout
    then http
    else https

pub record SchemeHint : Type 0 where
  pub prefer_https : Bool
  pub tls_pinned : Bool
  pub timeout : ℤ

pub record CacheEntry : Type 0 where
  pub scheme : Text
  pub expires : ℕ

abbrev pub scheme_cache_ttl : ℕ
scheme_cache_ttl = 5 * 60 * 1000 * millisecond

abbrev pub store : ℕ → Text → Text → GoMap Text CacheEntry → GoMap Text CacheEntry × Text
store now host scheme cache =
    (insert host (record { scheme = scheme; expires = now + scheme_cache_ttl }) cache, scheme)

abbrev pub probe_timeout : SchemeHint → ℤ
probe_timeout hint = if leb_ℤ hint.timeout (pos 0) then pos (750 * millisecond) else hint.timeout

abbrev pub probe_and_store :
    Dial → ℕ → Text → SchemeHint → GoMap Text CacheEntry → GoMap Text CacheEntry × Text
probe_and_store dial now host hint cache =
    store now host (probe_scheme dial host (probe_timeout hint)) cache

-- How far a call has come with its one access of the cache: its answer is known, or it must probe.
pub data Looked : Type 0 where
  answered : Text → Looked
  must_probe : Looked

abbrev pub forced : ℕ → Text → GoMap Text CacheEntry → GoMap Text CacheEntry × Looked
forced now host cache = let r = store now host https cache in (r.0, answered r.1)

-- What the entry of the host, if there is one, is worth.
abbrev pub from_cache : ℕ → Option CacheEntry → Looked
from_cache now none = must_probe
from_cache now (some ent) =
    if ltb now ent.expires && (text_beq ent.scheme http || text_beq ent.scheme https)
    then answered ent.scheme
    else must_probe

-- `ResolveScheme` up to the call of `ProbeScheme`.
unfoldable pub look : ℕ → Text → SchemeHint → GoMap Text CacheEntry → GoMap Text CacheEntry × Looked
unfolding insert lookup text_beq
look now host hint cache =
    if is_empty host
    then (cache, answered https)
    else if hint.tls_pinned
    then forced now host cache
    else if hint.prefer_https
    then forced now host cache
    else (cache, from_cache now (lookup host cache))

-- The rest of it: what was probed is stored, at a later time, whatever the cache holds by then.
abbrev pub complete :
    Dial → ℕ → Text → SchemeHint → GoMap Text CacheEntry × Looked → GoMap Text CacheEntry × Text
complete dial later host hint (cache, answered scheme) = (cache, scheme)
complete dial later host hint (cache, must_probe) = probe_and_store dial later host hint cache

-- A call that no other call overlaps.
unfoldable pub resolve_scheme :
    Dial → ℕ → ℕ → Text → SchemeHint → GoMap Text CacheEntry → GoMap Text CacheEntry × Text
unfolding look
resolve_scheme dial now later host hint cache =
    complete dial later host hint (look now host hint cache)

unfoldable pub clear_scheme_cache : Text → GoMap Text CacheEntry → GoMap Text CacheEntry
unfolding delete
clear_scheme_cache host cache = if is_empty host then cache else delete host cache
