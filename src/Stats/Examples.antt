-- ===== src/Stats/Examples.antt =====
-- Concrete runs of the device store.
use wavecontrol.Prelude.{
  ℕ, ◌+◌, ◌≤◌, Bool, true, false, List, [], ◌∷◌, map, some, ◌≡◌, refl, arith, length, Text, codes,
  text_beq, to_lower, pos, nat_eq, int_eq, text_eq,
}
use wavecontrol.GoMap.{insert, lookup, delete}
use wavecontrol.Stats.Index.{new_index, clear_owner, clear_reverse, link, relink, unlink_mac}
use wavecontrol.Stats.Index.Linked.{Linked}
use wavecontrol.Stats.Index.Preserved.{new_index-Linked}
use wavecontrol.Stats.Device.{
  status_online, status_unknown, normalize_status, normalize_mac, empty_stats, InterfaceStats,
  DeviceStats,
}
use wavecontrol.Stats.Store.{
  new_store, get_ip_by_mac, set_ip_for_mac, existing, polled, update, resolve, bind_identity_by_mac,
  set_status_by_mac_changed, get, get_by_mac, remove_by_mac, Store,
}
use wavecontrol.Stats.Store.Identity.{
  step, run, Linked-run, Call, sets_ip, updates, sets_status, removes_mac,
}
use wavecontrol.Stats.Store.Lookup.{identity_of, get-update_of_bound}
use wavecontrol.Stats.Store.Status.{get-IsConsistent, IsConsistent}
use wavecontrol.Stats.Counts.{counts, counts_by_status}
use wavecontrol.Stats.Counts.Totals.{counts_by_status-counts}
use wavecontrol.Stats.Listing.{offline_devices, unknown_devices}
use wavecontrol.Stats.Listing.Lengths.{counts_by_status-listings}
use wavecontrol.Stats.Throughput.{sample_of, get_throughput_history, DeviceRates}
use wavecontrol.Stats.Throughput.Newest.{oldest_first}
use wavecontrol.Stats.Throughput.Reading.{after_polls, get_throughput_history-oldest_first}
use wavecontrol.Stats.Stability.{
  prune, count_after, track, stability_key, track_stability_status, StabilityStats,
}
use wavecontrol.Stats.Stability.Windows.{
  about, after_reports, track_stability_status-CountsWindows, Report, CountsWindows,
}

-- A sort that finds its list in order.
abbrev in_order :
    (InterfaceStats ℕ → InterfaceStats ℕ → Bool) → List (InterfaceStats ℕ) → List (InterfaceStats ℕ)
in_order less interfaces = interfaces

abbrev start : Store ℕ
start = new_store

abbrev addr : Text
addr = codes "10.0.0.1"

abbrev poll_result : DeviceStats ℕ
poll_result = record empty_stats { mac = codes "AA:01" }

-- The address moves from one device to another, which then fails and is removed.
abbrev calls : List (Call ℕ)
calls =
    updates 5 addr poll_result
    ∷ sets_ip (codes "bb:02") addr
    ∷ sets_status 7 [] addr (codes "offline") (codes "timeout") [] false
    ∷ removes_mac (codes "AA:01")
    ∷ []

Linked-run_example : Linked (run in_order calls start).index
Linked-run_example = Linked-run in_order calls start new_index-Linked

polled_store : Store ℕ
polled_store = run in_order (updates 5 addr poll_result ∷ []) start

moves_address : get_ip_by_mac (codes "AA:01") (run in_order calls start) ≡ []
unfolding run step update link clear_owner clear_reverse set_ip_for_mac set_status_by_mac_changed
    relink unlink_mac remove_by_mac resolve get_ip_by_mac insert lookup delete text_beq
    normalize_mac to_lower normalize_status existing
moves_address = refl

online_entry : DeviceStats ℕ
unfolding normalize_mac to_lower
online_entry = polled in_order 5 addr poll_result

get-IsConsistent_example : IsConsistent online_entry
unfolding online_entry
get-IsConsistent_example =
    get-IsConsistent in_order (updates 5 addr poll_result ∷ []) addr online_entry (
      unfold run step update link clear_owner clear_reverse get insert lookup delete text_beq
        normalize_mac to_lower existing in
      refl)

get-update_of_bound_example :
    let new =
      (update in_order 5 addr poll_result (bind_identity_by_mac [] addr (pos 7) (pos 2) start)).0 in
    (identity_of (get addr new) ≡ some (pos 7, pos 2))
    × (get addr new ≡ get_by_mac (codes "AA:01") new)
get-update_of_bound_example =
    get-update_of_bound in_order 5 addr (pos 7) (pos 2) poll_result start new_index-Linked refl
      (unfold lookup in refl) (unfold normalize_mac to_lower in refl) (unfold lookup in refl) refl
      refl refl

-- Two polls of a device that is online and one that is not.
abbrev polls : List (ℕ × List DeviceRates)
polls =
    (
      60,
      record { is_online = true; device_tx = 5; device_rx = 7 }
          ∷ record { is_online = false; device_tx = 9; device_rx = 9 }
          ∷ [],
    )
    ∷ (30, [])
    ∷ []

get_throughput_history-oldest_first_example :
    get_throughput_history (after_polls polls) ≡ oldest_first 60 (map sample_of polls)
get_throughput_history-oldest_first_example = get_throughput_history-oldest_first polls

-- A device that was online and is then unknown, in the same hour.
abbrev reports : List Report
reports =
    record {
      time = 200;
      address = addr;
      name = [];
      state = status_unknown;
      up = pos 9;
      found_in = new_index;
    }
    ∷ record {
      time = 100;
      address = addr;
      name = [];
      state = status_online;
      up = pos 4;
      found_in = new_index;
    }
    ∷ []

abbrev tracked : StabilityStats
tracked = record {
  ip = addr;
  hostname = [];
  last_uptime = pos 9;
  last_online = false;
  last_seen = 200;
  flaps_1h = 1;
  flaps_24h = 1;
  reboots_1h = 0;
  reboots_24h = 0;
  flap_times = 200 ∷ [];
  reboot_times = [];
}

track_stability_status-CountsWindows_example : CountsWindows (about addr reports) tracked
track_stability_status-CountsWindows_example =
    track_stability_status-CountsWindows addr reports tracked
      (unfold about stability_key lookup text_beq in (omega arith, tt))
      (unfold after_reports track_stability_status stability_key track normalize_status prune
          count_after lookup insert text_beq in
        refl)

counts_by_status-counts_example :
    let s = run in_order calls start in
    let n = counts s in
    let m = counts_by_status s in
    (m.online ≡ n.online)
    × (m.total ≡ n.total)
    × (m.online + m.offline + m.unknown ≡ m.total)
    × (n.offline ≡ m.offline + m.unknown)
counts_by_status-counts_example = counts_by_status-counts in_order calls

counts_by_status-listings_example :
    let s = run in_order calls start in
    (length (offline_devices s) ≡ (counts_by_status s).offline)
    × (length (unknown_devices s) ≤ (counts_by_status s).unknown)
counts_by_status-listings_example = counts_by_status-listings (run in_order calls start)
