-- ===== src/Stats/Index.antt =====
-- internal/stats/store.go, `byMAC` and `byIP`: which MAC address has which management IP. The store
-- keeps the two maps as inverses of each other; the empty IP in `byMAC` stands for none.
pub mod Linked
pub mod Preserved
use wavecontrol.Prelude.{
  Bool, false, ◌&&◌, not, [], Option, none, some, if◌then◌else◌, ◌==◌, Text, is_empty, nat_eq,
  int_eq, text_eq,
}
use wavecontrol.GoMap.{GoMap, insert, lookup, delete}

pub record Index : Type 0 where
  pub by_mac : GoMap Text Text
  pub by_ip : GoMap Text Text

abbrev pub new_index : Index
new_index = record { by_mac = []; by_ip = [] }

-- `m[k]` of a map of strings
abbrev pub or_empty : Option Text → Text
or_empty none = []
or_empty (some t) = t

-- `v, ok := m[k]; ok && v == t`
abbrev pub is_at : Text → Option Text → Bool
is_at t none = false
is_at t (some v) = v == t

-- An IP that another MAC address holds is taken from it.
unfoldable pub clear_owner : Text → Text → Index → Index
clear_owner mac ip ix =
    let other = or_empty (lookup ip ix.by_ip) in
    if not (is_empty other) && not (other == mac) && is_at ip (lookup other ix.by_mac)
    then record ix { by_mac = insert other [] ix.by_mac }
    else ix

-- The reverse entry of the IP that the MAC address had before goes away.
unfoldable pub clear_reverse : Text → Text → Index → Index
clear_reverse mac ip ix =
    let old = or_empty (lookup mac ix.by_mac) in
    if not (is_empty old) && not (old == ip) && is_at mac (lookup old ix.by_ip)
    then record ix { by_ip = delete old ix.by_ip }
    else ix

abbrev pub write : Text → Text → Index → Index
write mac ip ix = record ix {
  by_mac = insert mac ip ix.by_mac;
  by_ip = if is_empty ip then ix.by_ip else insert ip mac ix.by_ip;
}

-- The sequence of `Update`, `BindIdentityByMAC`, `SetStatusByMACChanged` and, for the access point,
-- of `UpdatePeers`; but for `Update` the IP is not empty there.
unfoldable pub link : Text → Text → Index → Index
link mac ip ix = write mac ip (clear_reverse mac ip (clear_owner mac ip ix))

-- The sequence of `SetIPForMAC`, and for the stations of `UpdatePeers`.
unfoldable pub relink : Text → Text → Index → Index
relink mac ip ix =
    let kept = clear_reverse mac ip ix in
    write mac ip (if is_empty ip then kept else clear_owner mac ip kept)

-- `RemoveByMAC`
unfoldable pub unlink_mac : Text → Index → Index
unlink_mac mac ix =
    let ip = or_empty (lookup mac ix.by_mac) in
    record {
      by_mac = delete mac ix.by_mac;
      by_ip =
          if not (is_empty ip) && is_at mac (lookup ip ix.by_ip)
          then delete ip ix.by_ip
          else ix.by_ip;
    }

-- `Remove`, where the IP has the MAC address.
unfoldable pub unlink_ip : Text → Text → Index → Index
unlink_ip ip mac ix = record {
  by_ip = delete ip ix.by_ip;
  by_mac = if is_at ip (lookup mac ix.by_mac) then delete mac ix.by_mac else ix.by_mac;
}
