-- ===== src/Stats/Store/Lookup.antt =====
-- How a device's entry is found again.
use wavecontrol.Prelude.{
  ℕ, Bool, true, false, List, [], Option, none, some, ◌≡◌, refl, sym, ap, ◌∙◌, arith, Text,
  is_empty, to_lower, ltb_ℤ, ℤ, pos, nat_eq, int_eq, text_eq,
}
use wavecontrol.GoMap.{GoMap, key_refl, insert, lookup, delete, lookup-insert}
use wavecontrol.Stats.Index.{link}
use wavecontrol.Stats.Device.{normalize_mac, ip_key, inherit, or_else, InterfaceStats, DeviceStats}
use wavecontrol.Stats.Store.{
  existing, polled, update, resolve, bind_identity_by_mac, get, get_by_mac, Store,
}
use wavecontrol.Stats.Index.Linked.{link-Assigns, Linked}

-- The inventory identity of an entry.
abbrev pub identity_of : {M : Type 0} → Option (DeviceStats M) → Option (ℤ × ℤ)
identity_of none = none
identity_of (some ds) = some (ds.device_id, ds.site_id)

module _ {M : Type 0}
    (slice_stable : (InterfaceStats M → InterfaceStats M → Bool)
      → List (InterfaceStats M)
      → List (InterfaceStats M)) where
  get-update :
      (now : ℕ) (ip : Text) (stats : DeviceStats M) (s : Store M)
      → Linked s.index
      → is_empty ip ≡ false
      → is_empty (normalize_mac stats.mac) ≡ false
      → let new = (update slice_stable now ip stats s).0 in
        let entry =
          inherit (existing (normalize_mac stats.mac) ip s) (polled slice_stable now ip stats) in
        (get ip new ≡ some entry) × (get_by_mac stats.mac new ≡ some entry)
  unfolding get get_by_mac update
  get-update now ip stats s h given reported =
      let mac = normalize_mac stats.mac in
      let entry = inherit (existing mac ip s) (polled slice_stable now ip stats) in
      let rest = delete (ip_key ip) s.devices in
      let at : lookup ip (link mac ip s.index).by_ip ≡ some mac =
        (link-Assigns mac ip s.index h).reverse ip ∙ rw (given, key_refl ip) in
      let stored : lookup mac (insert mac entry rest) ≡ some entry =
        lookup-insert mac mac entry rest ∙ rw (key_refl mac) in
      (rw (reported, at, given) (rw (reported, stored)), rw (reported, stored))

found-insert :
    {M : Type 0} (k mac : Text) (ds : DeviceStats M) (devices : GoMap Text (DeviceStats M))
    → lookup mac devices ≡ none
    → let new = insert k ds devices in
      identity_of (or_else (lookup mac new) (lookup k new)) ≡ identity_of (some ds)
found-insert k mac ds devices fresh =
    ground (arith, lookup-insert k mac ds devices, lookup-insert k k ds devices, key_refl k, fresh)

existing-bind_identity_by_mac :
    {M : Type 0} (ip mac : Text) (device_id site_id : ℤ) (s : Store M)
    → is_empty ip ≡ false
    → is_empty mac ≡ false
    → lookup ip s.index.by_ip ≡ none
    → lookup mac s.devices ≡ none
    → ltb_ℤ (pos 0) device_id ≡ true
    → let bound = bind_identity_by_mac [] ip device_id site_id s in
      (identity_of (existing mac ip bound) ≡ some (device_id, site_id)) × (bound.index ≡ s.index)
unfolding bind_identity_by_mac existing
existing-bind_identity_by_mac ip mac device_id site_id s given reported free fresh known =
    let r : resolve (normalize_mac []) ip s ≡ ([], ip_key ip) =
      unfold resolve normalize_mac to_lower in rw (given, free) in
    rw r (rw (reported, given, known) (found-insert (ip_key ip) mac _ s.devices fresh, refl))

identity-inherit :
    {M : Type 0} (before : Option (DeviceStats M)) (stats : DeviceStats M) (device_id site_id : ℤ)
    → identity_of before ≡ some (device_id, site_id)
    → stats.device_id ≡ pos 0
    → stats.site_id ≡ pos 0
    → identity_of (some (inherit before stats)) ≡ some (device_id, site_id)
identity-inherit none stats device_id site_id e d t = absurd cc
identity-inherit (some old) stats device_id site_id e d t = rw (d, t) e

-- Let the identity maps be inverse to each other, let an IP that is not empty have no MAC address in
-- them, and let no entry stand under the MAC address that a poll reports. If the IP was bound to a
-- device number above zero and the poll brings no numbers itself, its entry keeps the device's and
-- the site's number, and is found by the IP and by the MAC address alike.
pub get-update_of_bound :
    {M : Type 0}
    (slice_stable : (InterfaceStats M → InterfaceStats M → Bool)
      → List (InterfaceStats M)
      → List (InterfaceStats M))
    (now : ℕ) (ip : Text) (device_id site_id : ℤ) (stats : DeviceStats M) (s : Store M)
    → Linked s.index
    → is_empty ip ≡ false
    → lookup ip s.index.by_ip ≡ none
    → is_empty (normalize_mac stats.mac) ≡ false
    → lookup (normalize_mac stats.mac) s.devices ≡ none
    → ltb_ℤ (pos 0) device_id ≡ true
    → stats.device_id ≡ pos 0
    → stats.site_id ≡ pos 0
    → let new =
        (update slice_stable now ip stats (bind_identity_by_mac [] ip device_id site_id s)).0 in
      (identity_of (get ip new) ≡ some (device_id, site_id))
      × (get ip new ≡ get_by_mac stats.mac new)
get-update_of_bound slice_stable now ip device_id site_id stats s h given free reported fresh known
      unset_id unset_site =
    let bound = bind_identity_by_mac [] ip device_id site_id s in
    let mac = normalize_mac stats.mac in
    let b =
      existing-bind_identity_by_mac ip mac device_id site_id s given reported free fresh known in
    let g = get-update slice_stable now ip stats bound (rw (b.1) h) given reported in
    (
      ap identity_of g.0
          ∙ identity-inherit (existing mac ip bound) (polled slice_stable now ip stats) device_id
              site_id b.0 unset_id unset_site,
      g.0 ∙ sym g.1,
    )
