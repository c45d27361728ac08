-- ===== src/Stats/Stability.antt =====
-- internal/stats/store.go, `TrackStabilityStatus`: how often a device left the online state and how
-- often it restarted, in the last hour and the last day. Times are nanoseconds, uptimes are seconds.
pub mod Windows
use wavecontrol.Prelude.{
  ℕ, ◌+◌, ◌*◌, Bool, ◌&&◌, not, List, [], ◌∷◌, ◌++◌, Option, none, some, ltb, if◌then◌else◌, length,
  ◌==◌, Text, is_empty, ltb_ℤ, ℤ, pos, nat_eq, int_eq, text_eq,
}
use wavecontrol.GoMap.{GoMap, insert, lookup}
use wavecontrol.Stats.Device.{status_online, status_offline, normalize_status}
use wavecontrol.Stats.Index.{or_empty, Index}

-- time.Hour and 24 * time.Hour
abbrev pub hour : ℕ
hour = 3600000000000

abbrev pub day : ℕ
day = 24 * 3600000000000

pub record StabilityStats : Type 0 where
  pub ip : Text
  pub hostname : Text
  pub last_uptime : ℤ
  pub last_online : Bool
  pub last_seen : ℕ
  pub flaps_1h : ℕ
  pub flaps_24h : ℕ
  pub reboots_1h : ℕ
  pub reboots_24h : ℕ
  pub flap_times : List ℕ
  pub reboot_times : List ℕ

-- `t.After(now.Add(-window))`
abbrev pub is_after : ℕ → ℕ → ℕ → Bool
is_after window now t = ltb now (t + window)

-- The loops that keep the times of a window, and that count them.
unfoldable pub prune : ℕ → ℕ → List ℕ → List ℕ
prune window now [] = []
prune window now (t ∷ times) =
    let rest = prune window now times in if is_after window now t then t ∷ rest else rest

unfoldable pub count_after : ℕ → ℕ → List ℕ → ℕ
count_after window now [] = 0
count_after window now (t ∷ times) =
    let rest = count_after window now times in if is_after window now t then rest + 1 else rest

abbrev pub append_if : Bool → ℕ → List ℕ → List ℕ
append_if c t times = if c then times ++ (t ∷ []) else times

abbrev pub first_seen : ℕ → Text → Text → Bool → ℤ → StabilityStats
first_seen now ip hostname online uptime = record {
  ip = ip;
  hostname = hostname;
  last_uptime = uptime;
  last_online = online;
  last_seen = now;
  flaps_1h = 0;
  flaps_24h = 0;
  reboots_1h = 0;
  reboots_24h = 0;
  flap_times = [];
  reboot_times = [];
}

unfoldable pub track : ℕ → Text → Text → Bool → ℤ → StabilityStats → StabilityStats
track now ip hostname online uptime st =
    let flapped = st.last_online && not online in
    let rebooted =
      online
      && st.last_online
      && ltb_ℤ (pos 0) uptime
      && ltb_ℤ (pos 0) st.last_uptime
      && ltb_ℤ uptime st.last_uptime in
    let flaps = prune day now (append_if flapped now st.flap_times) in
    let reboots = prune day now (append_if rebooted now st.reboot_times) in
    record {
      ip = ip;
      hostname = hostname;
      last_uptime = uptime;
      last_online = online;
      last_seen = now;
      flaps_1h = count_after hour now flaps;
      flaps_24h = length flaps;
      reboots_1h = count_after hour now reboots;
      reboots_24h = length reboots;
      flap_times = flaps;
      reboot_times = reboots;
    }

abbrev pub Stability : Type 0
Stability = GoMap Text StabilityStats

-- The key: the MAC address that holds the IP, where there is one.
unfoldable pub stability_key : Index → Text → Text
stability_key ix ip =
    let mac = or_empty (lookup ip ix.by_ip) in
    if is_empty ip then ip else if is_empty mac then ip else mac

abbrev pub track_or_new : ℕ → Text → Text → Bool → ℤ → Option StabilityStats → StabilityStats
track_or_new now ip hostname online uptime none = first_seen now ip hostname online uptime
track_or_new now ip hostname online uptime (some st) = track now ip hostname online uptime st

unfoldable pub track_stability_status : ℕ → Text → Text → Text → ℤ → Index → Stability → Stability
track_stability_status now ip hostname status uptime ix m =
    let online = normalize_status status == status_online in
    let key = stability_key ix ip in
    insert key (track_or_new now ip hostname online uptime (lookup key m)) m

-- `TrackStability`
unfoldable pub track_stability : ℕ → Text → Text → Bool → ℤ → Index → Stability → Stability
track_stability now ip hostname online uptime =
    track_stability_status now ip hostname (if online then status_online else status_offline) uptime
