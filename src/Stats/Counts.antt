-- ===== src/Stats/Counts.antt =====
-- internal/stats/store.go, `Counts` and `CountsByStatus`: how many devices are in which state.
pub mod Totals
use wavecontrol.Prelude.{ℕ, ◌+◌, [], ◌∷◌, if◌then◌else◌, ◌==◌, Text, nat_eq, int_eq, text_eq}
use wavecontrol.GoMap.{GoMap}
use wavecontrol.Stats.Device.{status_online, status_unknown, status_offline, DeviceStats}
use wavecontrol.Stats.Store.{Store}

pub record StatusCounts : Type 0 where
  pub online : ℕ
  pub offline : ℕ
  pub unknown : ℕ
  pub total : ℕ

abbrev pub no_counts : StatusCounts
no_counts = record { online = 0; offline = 0; unknown = 0; total = 0 }

module _ {M : Type 0} where
  -- `Counts` has no count of unknown devices.
  abbrev pub count_flag : DeviceStats M → StatusCounts → StatusCounts
  count_flag ds n =
      if ds.online
      then record n { total = n.total + 1; online = n.online + 1 }
      else record n { total = n.total + 1; offline = n.offline + 1 }

  abbrev pub count_status : DeviceStats M → StatusCounts → StatusCounts
  count_status ds n =
      if ds.status == status_online
      then record n { total = n.total + 1; online = n.online + 1 }
      else if ds.status == status_offline
      then record n { total = n.total + 1; offline = n.offline + 1 }
      else if ds.status == status_unknown
      then record n { total = n.total + 1; unknown = n.unknown + 1 }
      else if ds.online
      then record n { total = n.total + 1; online = n.online + 1 }
      else record n { total = n.total + 1; unknown = n.unknown + 1 }

  unfoldable pub count_all :
      (DeviceStats M → StatusCounts → StatusCounts)
      → GoMap Text (DeviceStats M)
      → StatusCounts
      → StatusCounts
  count_all count [] n = n
  count_all count ((key, ds) ∷ rest) n = count_all count rest (count ds n)

  unfoldable pub counts : Store M → StatusCounts
  counts s = count_all count_flag s.devices no_counts

  unfoldable pub counts_by_status : Store M → StatusCounts
  counts_by_status s = count_all count_status s.devices no_counts
