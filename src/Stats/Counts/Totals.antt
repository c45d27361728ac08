-- ===== src/Stats/Counts/Totals.antt =====
-- The two ways of counting agree.
use wavecontrol.Prelude.{◌+◌, Bool, List, [], ◌∷◌, ◌≡◌, refl, sym, arith, Text}
use wavecontrol.GoMap.{GoMap}
use wavecontrol.Stats.Device.{InterfaceStats, DeviceStats}
use wavecontrol.Stats.Store.{new_store}
use wavecontrol.Stats.Store.Identity.{run, Call}
use wavecontrol.Stats.Store.Status.{AllConsistent, AllConsistent-run, IsConsistent}
use wavecontrol.Stats.Counts.{
  no_counts, count_flag, count_status, count_all, counts, counts_by_status, StatusCounts,
}

-- Counters by the flag and by the status that agree on the online devices and on all devices.
record Agree (n m : StatusCounts) : Type 0 where
  same_online : n.online ≡ m.online
  same_total : n.total ≡ m.total
  parts : m.online + m.offline + m.unknown ≡ m.total
  flag_parts : n.online + n.offline ≡ n.total

module _ {M : Type 0} where
  Agree-count :
      (ds : DeviceStats M) (n m : StatusCounts)
      → IsConsistent ds
      → Agree n m
      → Agree (count_flag ds n) (count_status ds m)
  Agree-count ds n m c a = record {
    same_online = ground (arith, c.flag, a.same_online);
    same_total = ground (arith, a.same_total);
    parts = ground (arith, a.parts);
    flag_parts = ground (arith, a.flag_parts);
  }

  Agree-count_all :
      (devices : GoMap Text (DeviceStats M)) (n m : StatusCounts)
      → AllConsistent devices
      → Agree n m
      → Agree (count_all count_flag devices n) (count_all count_status devices m)
  unfolding count_all
  Agree-count_all [] n m c a = a
  Agree-count_all ((key, ds) ∷ rest) n m c a =
      Agree-count_all rest (count_flag ds n) (count_status ds m) c.1 (Agree-count ds n m c.0 a)

  -- From the empty store on, after any calls of `SetIPForMAC`, `Update`, `BindIdentityByMAC`,
  -- `SetStatusByMACChanged`, `RemoveByMAC` and `Remove`, both ways of counting see the same number of
  -- devices and of online ones, and each device is counted in one state: the devices that `Counts`
  -- calls offline are the offline and unknown ones.
  pub counts_by_status-counts :
      (slice_stable : (InterfaceStats M → InterfaceStats M → Bool)
        → List (InterfaceStats M)
        → List (InterfaceStats M))
      (calls : List (Call M))
      → let s = run slice_stable calls new_store in
        let n = counts s in
        let m = counts_by_status s in
        (m.online ≡ n.online)
        × (m.total ≡ n.total)
        × (m.online + m.offline + m.unknown ≡ m.total)
        × (n.offline ≡ m.offline + m.unknown)
  unfolding counts counts_by_status
  counts_by_status-counts slice_stable calls =
      let s = run slice_stable calls new_store in
      let zero_agree : Agree no_counts no_counts = record {
        same_online = refl;
        same_total = refl;
        parts = refl;
        flag_parts = refl;
      } in
      let a =
        Agree-count_all s.devices no_counts no_counts
          (AllConsistent-run slice_stable calls new_store tt) zero_agree in
      (
        sym a.same_online,
        sym a.same_total,
        a.parts,
        omega (arith, a.same_online, a.same_total, a.parts, a.flag_parts),
      )
