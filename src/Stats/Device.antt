-- ===== src/Stats/Device.antt =====
-- internal/stats/store.go, `DeviceStats`: one device's live state. The values that the store only
-- carries along have the type `M`.
use wavecontrol.Prelude.{
  ℕ, Bool, true, false, ◌&&◌, ◌||◌, not, List, [], ◌∷◌, ◌++◌, Option, none, some, ltb, nat_beq,
  if◌then◌else◌, ◌==◌, Text, codes, is_empty, to_lower, ℤ, pos, nat_eq, int_eq, text_eq,
}

abbrev pub status_online : Text
status_online = codes "online"

abbrev pub status_unknown : Text
status_unknown = codes "unknown"

abbrev pub status_offline : Text
status_offline = codes "offline"

abbrev pub status_upgrading : Text
status_upgrading = codes "upgrading"

unfoldable pub normalize_status : Text → Text
normalize_status s =
    if s == status_online || s == status_unknown || s == status_offline || s == status_upgrading
    then s
    else status_unknown

unfoldable pub normalize_mac : Text → Text
normalize_mac = to_lower

abbrev pub ip_key_prefix : Text
ip_key_prefix = codes "ip:"

abbrev pub ip_key : Text → Text
ip_key ip = ip_key_prefix ++ ip

-- An interface with the two fields that it is sorted by.
pub record InterfaceStats (M : Type 0) : Type 0 where
  pub id : Text
  pub name : Text
  pub details : M

pub record DeviceStats (M : Type 0) : Type 0 where
  pub device_id : ℤ
  pub site_id : ℤ
  pub mac : Text
  pub ip : Text
  pub status : Text
  pub db_status : Text
  pub status_reason : Text
  pub online : Bool
  pub last_seen : ℕ
  pub last_error : Text
  pub config : Option M
  pub interfaces : List (InterfaceStats M)
  -- The other fields; `none` is their zero value.
  pub measured : Option M

-- The comparison that orders the interfaces: by name where the keys agree.
unfoldable pub text_ltb : Text → Text → Bool
text_ltb [] [] = false
text_ltb [] (b ∷ t) = true
text_ltb (a ∷ s) [] = false
text_ltb (a ∷ s) (b ∷ t) = let rest = text_ltb s t in ltb a b || (nat_beq a b && rest)

module _ {M : Type 0} where
  abbrev pub empty_stats : DeviceStats M
  empty_stats = record {
    device_id = pos 0;
    site_id = pos 0;
    mac = [];
    ip = [];
    status = [];
    db_status = [];
    status_reason = [];
    online = false;
    last_seen = 0;
    last_error = [];
    config = none;
    interfaces = [];
    measured = none;
  }

  abbrev pub interface_key : InterfaceStats M → Text
  interface_key i = let k = to_lower i.id in if is_empty k then to_lower i.name else k

  unfoldable pub interface_less : InterfaceStats M → InterfaceStats M → Bool
  interface_less a b =
      let ki = interface_key a in
      let kj = interface_key b in
      if ki == kj then text_ltb (to_lower a.name) (to_lower b.name) else text_ltb ki kj

  -- `wasOnline`, from the entry that the device had.
  abbrev pub was_online : Option (DeviceStats M) → Bool
  was_online none = false
  was_online (some ds) = if not (is_empty ds.status) then ds.status == status_online else ds.online

  abbrev pub or_config : Option M → Option M → Option M
  or_config none kept = kept
  or_config (some config) kept = some config

  abbrev pub inherit : Option (DeviceStats M) → DeviceStats M → DeviceStats M
  inherit none stats = stats
  inherit (some old) stats = record stats {
    device_id = if stats.device_id == pos 0 then old.device_id else stats.device_id;
    site_id = if stats.site_id == pos 0 then old.site_id else stats.site_id;
    config = or_config stats.config old.config;
  }

  abbrev pub or_else : Option (DeviceStats M) → Option (DeviceStats M) → Option (DeviceStats M)
  or_else none other = other
  or_else (some ds) other = some ds

  abbrev pub or_empty_stats : Option (DeviceStats M) → DeviceStats M
  or_empty_stats none = empty_stats
  or_empty_stats (some ds) = ds

  abbrev pub previous_status : DeviceStats M → Text
  previous_status ds =
      if is_empty ds.status
      then (if ds.online then status_online else status_unknown)
      else ds.status

  abbrev pub is_none : Option (DeviceStats M) → Bool
  is_none none = true
  is_none (some ds) = false
