-- ===== src/Stats/Store.antt =====
-- internal/stats/store.go, `Store`: the live state of each device, by MAC address where that is
-- known and by IP otherwise. A method holds `mu`, so it is one step; `time.Now()` is an argument.
pub mod Identity
pub mod Status
pub mod Lookup
use wavecontrol.Prelude.{
  ℕ, Bool, true, false, ◌&&◌, ◌||◌, not, List, [], Option, none, some, ltb, if◌then◌else◌, length,
  ◌==◌, Text, is_empty, ltb_ℤ, ℤ, pos, nat_eq, int_eq, text_eq,
}
use wavecontrol.GoMap.{GoMap, insert, lookup, delete}
use wavecontrol.Stats.Index.{new_index, or_empty, link, relink, unlink_mac, unlink_ip, Index}
use wavecontrol.Stats.Device.{
  status_online, normalize_status, normalize_mac, ip_key, interface_less, was_online, inherit,
  or_else, or_empty_stats, previous_status, is_none, InterfaceStats, DeviceStats,
}

pub record Store (M : Type 0) : Type 0 where
  pub devices : GoMap Text (DeviceStats M)
  pub index : Index
  pub ip_filter : Option (Text → Bool)

abbrev pub filter_allows : Option (Text → Bool) → Text → Bool
filter_allows none ip = true
filter_allows (some allowed) ip = is_empty ip || allowed ip

module _ {M : Type 0} where
  abbrev pub new_store : Store M
  new_store = record { devices = []; index = new_index; ip_filter = none }

  unfoldable pub get_ip_by_mac : Text → Store M → Text
  get_ip_by_mac mac s = or_empty (lookup (normalize_mac mac) s.index.by_mac)

  -- `if ds, ok := s.devices[key]; ok { ds.IP = ip }`
  abbrev pub move_device :
      Text → Text → Option (DeviceStats M) → GoMap Text (DeviceStats M) → GoMap Text (DeviceStats M)
  move_device key ip none devices = devices
  move_device key ip (some ds) devices = insert key (record ds { ip = ip }) devices

  unfoldable pub set_ip_for_mac : Text → Text → Store M → Store M × Bool
  set_ip_for_mac mac_text ip s =
      let mac = normalize_mac mac_text in
      if is_empty mac
      then (s, false)
      else if not (filter_allows s.ip_filter ip)
      then (s, false)
      else if or_empty (lookup mac s.index.by_mac) == ip
      then (s, false)
      else (
        let moved = move_device mac ip (lookup mac s.devices) s.devices in
            record s {
              index = relink mac ip s.index;
              devices = if is_empty ip then moved else delete (ip_key ip) moved;
            },
        true,
      )

  -- The entry that `Update` replaces.
  unfoldable pub existing : Text → Text → Store M → Option (DeviceStats M)
  existing mac ip s =
      if is_empty mac
      then lookup (ip_key ip) s.devices
      else if is_empty ip
      then lookup mac s.devices
      else or_else (lookup mac s.devices) (lookup (ip_key ip) s.devices)

  -- The fields that `Update` sets in the new entry; `slice_stable` is `sort.SliceStable`.
  abbrev pub polled :
      ((InterfaceStats M → InterfaceStats M → Bool)
        → List (InterfaceStats M)
        → List (InterfaceStats M))
      → ℕ
      → Text
      → DeviceStats M
      → DeviceStats M
  polled slice_stable now ip parsed = record parsed {
    ip = ip;
    mac = normalize_mac parsed.mac;
    status = status_online;
    db_status = status_online;
    status_reason = [];
    online = true;
    last_seen = now;
    last_error = [];
    interfaces =
        if ltb 1 (length parsed.interfaces)
        then slice_stable interface_less parsed.interfaces
        else parsed.interfaces;
  }

  unfoldable pub update :
      ((InterfaceStats M → InterfaceStats M → Bool)
        → List (InterfaceStats M)
        → List (InterfaceStats M))
      → ℕ
      → Text
      → DeviceStats M
      → Store M
      → Store M × Bool
  update slice_stable now ip parsed s =
      let mac = normalize_mac parsed.mac in
      let key = if is_empty mac then ip_key ip else mac in
      let before = existing mac ip s in
      (
        record s {
          devices =
              insert key (inherit before (polled slice_stable now ip parsed))
                (if is_empty mac then s.devices else delete (ip_key ip) s.devices);
          index = if is_empty mac then s.index else link mac ip s.index;
        },
        not (was_online before),
      )

  -- The MAC address and the key under which the devices are searched: an IP stands for the MAC
  -- address that holds it.
  unfoldable pub resolve : Text → Text → Store M → Text × Text
  resolve mac ip s =
      if not (is_empty mac)
      then (mac, mac)
      else if is_empty ip
      then ([], [])
      else let mapped = or_empty (lookup ip s.index.by_ip) in
        if is_empty mapped then ([], ip_key ip) else (mapped, mapped)

  unfoldable pub bind_identity_by_mac : Text → Text → ℤ → ℤ → Store M → Store M
  bind_identity_by_mac mac_text ip device_id site_id s =
      let found = resolve (normalize_mac mac_text) ip s in
      let mac = found.0 in
      let ds = or_empty_stats (lookup found.1 s.devices) in
      let known = ltb_ℤ (pos 0) device_id in
      let bound = record ds {
        device_id = if known then device_id else ds.device_id;
        site_id = if known then site_id else ds.site_id;
        mac = if is_empty mac then ds.mac else mac;
        ip = if is_empty ip then ds.ip else ip;
      } in
      let devices = insert found.1 bound s.devices in
      if is_empty found.1
      then s
      else if is_empty mac || is_empty ip
      then record s { devices = devices }
      else record s { index = link mac ip s.index; devices = delete (ip_key ip) devices }

  -- What `SetStatusByMACChanged` answers: whether the device left the online state, and whether
  -- its status or reason changed.
  unfoldable pub set_status_by_mac_changed :
      ℕ → Text → Text → Text → Text → Text → Bool → Store M → Store M × Bool × Bool
  set_status_by_mac_changed now mac_text ip status_text reason err_msg mark_seen s =
      let status = normalize_status status_text in
      let found = resolve (normalize_mac mac_text) ip s in
      let mac = found.0 in
      let old = lookup found.1 s.devices in
      let ds = or_empty_stats old in
      let previous = previous_status ds in
      let changed = is_none old || not (previous == status) || not (ds.status_reason == reason) in
      let marked = record ds {
        mac = if is_empty mac then ds.mac else mac;
        ip = if is_empty ip then ds.ip else ip;
        status = status;
        db_status = status;
        status_reason = reason;
        online = status == status_online;
        last_error =
            if not (is_empty err_msg)
            then err_msg
            else if status == status_online
            then []
            else ds.last_error;
        last_seen = if mark_seen then now else ds.last_seen;
      } in
      if is_empty found.1 then (s, false, false) else (
        record s {
          devices = insert found.1 marked s.devices;
          index = if is_empty mac || is_empty ip then s.index else link mac ip s.index;
        },
        previous == status_online && not (status == status_online),
        changed,
      )

  unfoldable pub get : Text → Store M → Option (DeviceStats M)
  get ip s =
      let mac = or_empty (lookup ip s.index.by_ip) in
      if is_empty ip
      then none
      else if is_empty mac
      then lookup (ip_key ip) s.devices
      else or_else (lookup mac s.devices) (lookup (ip_key ip) s.devices)

  unfoldable pub get_by_mac : Text → Store M → Option (DeviceStats M)
  get_by_mac mac_text s =
      let mac = normalize_mac mac_text in if is_empty mac then none else lookup mac s.devices

  unfoldable pub remove_by_mac : Text → Store M → Store M
  remove_by_mac mac_text s =
      let mac = normalize_mac mac_text in
      if is_empty mac
      then s
      else record s { index = unlink_mac mac s.index; devices = delete mac s.devices }

  unfoldable pub remove : Text → Store M → Store M
  remove ip s =
      let mac = or_empty (lookup ip s.index.by_ip) in
      if is_empty ip
      then s
      else if is_empty mac
      then record s { devices = delete (ip_key ip) s.devices }
      else record s { index = unlink_ip ip mac s.index; devices = delete mac s.devices }
