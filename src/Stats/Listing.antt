-- ===== src/Stats/Listing.antt =====
-- internal/stats/store.go, `OfflineDevices` and `UnknownDevices`, and the shorter forms of
-- `SetStatusByMACChanged`.
pub mod Lengths
use wavecontrol.Prelude.{
  ℕ, Bool, true, false, ◌&&◌, ◌||◌, not, List, [], ◌∷◌, if◌then◌else◌, ◌==◌, Text, is_empty, nat_eq,
  int_eq, text_eq,
}
use wavecontrol.GoMap.{GoMap}
use wavecontrol.Stats.Device.{status_unknown, status_offline, DeviceStats}
use wavecontrol.Stats.Store.{set_status_by_mac_changed, Store}

module _ {M : Type 0} where
  abbrev pub is_offline : DeviceStats M → Bool
  is_offline ds = ds.status == status_offline

  abbrev pub is_unknown : DeviceStats M → Bool
  is_unknown ds = ds.status == status_unknown || is_empty ds.status && not ds.online

  unfoldable pub select : (DeviceStats M → Bool) → GoMap Text (DeviceStats M) → List (DeviceStats M)
  select wanted [] = []
  select wanted ((key, ds) ∷ rest) =
      let others = select wanted rest in if wanted ds then ds ∷ others else others

  unfoldable pub offline_devices : Store M → List (DeviceStats M)
  offline_devices s = select is_offline s.devices

  unfoldable pub unknown_devices : Store M → List (DeviceStats M)
  unknown_devices s = select is_unknown s.devices

  unfoldable pub set_status_by_mac :
      ℕ → Text → Text → Text → Text → Text → Bool → Store M → Store M × Bool
  set_status_by_mac now mac ip status reason err_msg mark_seen s =
      let r = set_status_by_mac_changed now mac ip status reason err_msg mark_seen s in (r.0, r.1)

  abbrev pub set_status : ℕ → Text → Text → Text → Text → Bool → Store M → Store M × Bool
  set_status now ip = set_status_by_mac now [] ip

  abbrev pub set_unknown : ℕ → Text → Text → Text → Store M → Store M × Bool
  set_unknown now ip reason err_msg = set_status now ip status_unknown reason err_msg true

  abbrev pub set_unknown_by_mac : ℕ → Text → Text → Text → Text → Store M → Store M × Bool
  set_unknown_by_mac now mac ip reason err_msg =
      set_status_by_mac now mac ip status_unknown reason err_msg true

  abbrev pub set_offline_with_reason : ℕ → Text → Text → Text → Store M → Store M × Bool
  set_offline_with_reason now ip reason err_msg =
      set_status now ip status_offline reason err_msg false

  abbrev pub set_offline_with_reason_by_mac :
      ℕ → Text → Text → Text → Text → Store M → Store M × Bool
  set_offline_with_reason_by_mac now mac ip reason err_msg =
      set_status_by_mac now mac ip status_offline reason err_msg false

  abbrev pub set_offline : ℕ → Text → Text → Store M → Store M × Bool
  set_offline now ip err_msg = set_offline_with_reason now ip [] err_msg

  abbrev pub set_offline_by_mac : ℕ → Text → Text → Text → Store M → Store M × Bool
  set_offline_by_mac now mac ip err_msg = set_offline_with_reason_by_mac now mac ip [] err_msg
