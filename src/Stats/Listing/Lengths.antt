-- ===== src/Stats/Listing/Lengths.antt =====
-- The listings against the counts.
use wavecontrol.Prelude.{
  ◌+◌, ◌≤◌, true, false, [], ◌∷◌, ◌≡◌, refl, arith, length, ◌==◌, Text, text_beq, text_beq_iff,
  is_empty, nat_eq, int_eq, text_eq,
}
use wavecontrol.GoMap.{GoMap}
use wavecontrol.Stats.Device.{status_online, status_unknown, status_offline, DeviceStats}
use wavecontrol.Stats.Store.{Store}
use wavecontrol.Stats.Counts.{no_counts, count_status, count_all, counts_by_status, StatusCounts}
use wavecontrol.Stats.Listing.{is_offline, is_unknown, select, offline_devices, unknown_devices}

record Apart (s : Text) : Type 0 where
  offline_online : s == status_offline ≡ true → s == status_online ≡ false
  unknown_online : s == status_unknown ≡ true → s == status_online ≡ false
  unknown_offline : s == status_unknown ≡ true → s == status_offline ≡ false
  empty_online : is_empty s ≡ true → s == status_online ≡ false
  empty_offline : is_empty s ≡ true → s == status_offline ≡ false

empty_differs : (s t : Text) → is_empty t ≡ false → is_empty s ≡ true → s == t ≡ false
unfolding text_beq
empty_differs [] [] h e = absurd (ground arith)
empty_differs [] (d ∷ t) h e = refl
empty_differs (c ∷ s) t h e = absurd (ground arith)

Apart-all : (s : Text) → Apart s
Apart-all s = record {
  offline_online =
      λ h. (let e = (text_beq_iff s status_offline).0 h in rw e (unfold text_beq in refl));
  unknown_online =
      λ h. (let e = (text_beq_iff s status_unknown).0 h in rw e (unfold text_beq in refl));
  unknown_offline =
      λ h. (let e = (text_beq_iff s status_unknown).0 h in rw e (unfold text_beq in refl));
  empty_online = empty_differs s status_online refl;
  empty_offline = empty_differs s status_offline refl;
}

module _ {M : Type 0} where
  length-select :
      (devices : GoMap Text (DeviceStats M)) (n : StatusCounts)
      → ((count_all count_status devices n).offline
          ≡ n.offline + length (select is_offline devices))
        × (n.unknown + length (select is_unknown devices)
            ≤ (count_all count_status devices n).unknown)
  unfolding count_all select
  length-select [] n = (omega arith, omega arith)
  length-select ((key, ds) ∷ rest) n =
      let ih = length-select rest (count_status ds n) in
      let d = Apart-all ds.status in
      (
        ground (arith, ih.0, d.offline_online),
        ground (arith, ih.1, d.unknown_online, d.unknown_offline, d.empty_online, d.empty_offline),
      )

  -- The list of offline devices has the length that `CountsByStatus` counts; that of unknown ones has
  -- at most it, since a device with another status is counted as unknown and not listed.
  pub counts_by_status-listings :
      (s : Store M)
      → (length (offline_devices s) ≡ (counts_by_status s).offline)
        × (length (unknown_devices s) ≤ (counts_by_status s).unknown)
  unfolding offline_devices unknown_devices counts_by_status
  counts_by_status-listings s =
      let h = length-select s.devices no_counts in (omega (arith, h.0), omega (arith, h.1))
