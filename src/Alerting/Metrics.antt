-- ===== src/Alerting/Metrics.antt =====
-- internal/alerting/manager.go: the value of a metric on a device (`getMetricValue`).
pub mod Spread
use wavecontrol.Prelude.{
  ℕ, ◌+◌, ◌-◌, Bool, true, false, ◌||◌, not, List, [], ◌∷◌, map, Option, none, some, ltb, nat_beq,
  if◌then◌else◌, length, ◌==◌, Text, text_beq, leb_ℤ, ltb_ℤ, sub_ℤ, ℤ, pos, negsuc, nat_eq, int_eq,
  text_eq,
}
use wavecontrol.Alerting.Rule.{
  metric_signal_60ghz, metric_signal_5ghz, metric_signal_6ghz, metric_signal_ltu, metric_cpu,
  metric_temperature, metric_ram, metric_offline_duration, metric_capacity, metric_peer_count,
  metric_link_score, metric_interference, metric_chain_imbalance, metric_gps_sync, Floats,
}

-- What the alerts read of `stats.RadioStats`: its capacity is that of `Capacity.Combined`, its
-- interference that of `Utilization.Interference`, and none stands for a nil pointer on the way.
pub record Radio (F : Type 0) : Type 0 where
  pub signal : ℤ
  pub frequency : ℤ
  pub signal_per_chain : List ℤ
  pub capacity : Option ℤ
  pub interference : Option F
  pub gps_sync_state : ℤ

-- What the alerts read of `stats.DeviceStats`; `is_offline` is `Status == StatusOffline`, and
-- `config_gps_sync` is false without a configuration.
-- Times are in nanoseconds, and 0 is the zero time.
pub record Device (F : Type 0) : Type 0 where
  pub device_id : ℤ
  pub site_id : ℤ
  pub is_offline : Bool
  pub last_seen : ℕ
  pub cpu_usage : F
  pub temperature_cpu : F
  pub mem_usage : F
  pub peer_count : ℤ
  pub link_score_dl : Option ℤ
  pub radio_60ghz : Option (Radio F)
  pub radio_5ghz : Option (Radio F)
  pub radio_6ghz : Option (Radio F)
  pub radio_ltu : Option (Radio F)
  pub radios : List (Radio F)
  pub config_gps_sync : Bool

pub record Policy : Type 0 where
  pub device_id : ℤ
  pub role : Text
  pub alertable : Bool
  pub silenced_until : Option ℕ
  pub created_at : ℕ

-- The slots, in the order in which the loops visit them.
abbrev pub slots : {F : Type 0} → Device F → List (Option (Radio F))
slots ds = ds.radio_60ghz ∷ ds.radio_5ghz ∷ ds.radio_6ghz ∷ ds.radio_ltu ∷ map some ds.radios

-- `minSignal, maxSignal, count` over the readings of the chains.
pub record Span : Type 0 where
  pub lowest : ℤ
  pub highest : ℤ
  pub count : ℕ

-- A reading that is at least 0 is skipped.
abbrev pub widen : Span → ℤ → Span
widen s (pos n) = s
widen s (negsuc n) =
    let signal = negsuc n in
    record {
      lowest = if nat_beq s.count 0 || ltb_ℤ signal s.lowest then signal else s.lowest;
      highest = if nat_beq s.count 0 || ltb_ℤ s.highest signal then signal else s.highest;
      count = s.count + 1;
    }

unfoldable pub span_from : Span → List ℤ → Span
span_from s [] = s
span_from s (signal ∷ chains) = span_from (widen s signal) chains

abbrev pub no_span : Span
no_span = record { lowest = pos 0; highest = pos 0; count = 0 }

-- `maxSignal - minSignal` of one radio, where the radio counts.
unfoldable pub chain_spread : List ℤ → Option ℤ
unfolding span_from
chain_spread chains =
    let s = span_from no_span chains in
    if ltb (length chains) 2 || ltb s.count 2 then none else some (sub_ℤ s.highest s.lowest)

module _ (fl : Floats) where
  -- `if !found || value > maxValue { maxValue = value }; found = true`
  abbrev pub raise_max : Option fl.Float → Option fl.Float → Option fl.Float
  raise_max best none = best
  raise_max none (some value) = some value
  raise_max (some best) (some value) = if fl.lt best value then some value else some best

  module _ {A : Type 0} (read : A → Option fl.Float) where
    unfoldable pub max_over : Option fl.Float → List A → Option fl.Float
    max_over best [] = best
    max_over best (a ∷ l) = max_over (raise_max best (read a)) l

  abbrev pub finite_only : Option fl.Float → Option fl.Float
  finite_only none = none
  finite_only (some value) = if fl.finite value then some value else none

  abbrev pub read_interference : Option (Radio fl.Float) → Option fl.Float
  read_interference none = none
  read_interference (some radio) = finite_only radio.interference

  abbrev pub read_int : Option ℤ → Option fl.Float
  read_int none = none
  read_int (some n) = some (fl.of_int n)

  abbrev pub read_imbalance : Option (Radio fl.Float) → Option fl.Float
  read_imbalance none = none
  read_imbalance (some radio) = read_int (chain_spread radio.signal_per_chain)

  unfoldable pub max_radio_interference : Device fl.Float → Option fl.Float
  unfolding max_over
  max_radio_interference ds = max_over read_interference none (slots ds)

  unfoldable pub max_radio_chain_imbalance : Device fl.Float → Option fl.Float
  unfolding max_over chain_spread
  max_radio_chain_imbalance ds = max_over read_imbalance none (slots ds)

  -- The state of the synchronization of a radio, where it is known.
  abbrev pub gps_of : Option (Radio fl.Float) → ℤ
  gps_of none = pos 0
  gps_of (some radio) = radio.gps_sync_state

  -- Whether some radio is synchronized, else whether one is known not to be.
  unfoldable pub gps_scan : Bool → List (Option (Radio fl.Float)) → Option Bool
  gps_scan seen [] = if seen then some false else none
  gps_scan seen (radio ∷ l) =
      let unknown = gps_scan seen l in
      let known = gps_scan true l in
      if gps_of radio == pos 0 then unknown else if gps_of radio == pos 2 then some true else known

  unfoldable pub gps_sync_metric : Device fl.Float → Option fl.Float
  unfolding gps_scan
  gps_sync_metric ds = elim (gps_scan false (slots ds)) [
    | some true ↦ some (fl.of_int (pos 1))
    | some false ↦ some (fl.of_int (pos 0))
    | none ↦ if ds.config_gps_sync then some (fl.of_int (pos 1)) else none
  ]

  abbrev pub read_signal : Option (Radio fl.Float) → Option fl.Float
  read_signal none = none
  read_signal (some radio) = some (fl.of_int radio.signal)

  -- The slot for 6 GHz also holds the second interface at 5 GHz of some devices.
  abbrev pub read_6ghz : Option (Radio fl.Float) → Option fl.Float
  read_6ghz none = none
  read_6ghz (some radio) =
      if leb_ℤ (pos 5925) radio.frequency then some (fl.of_int radio.signal) else none

  -- `float64(Combined) / 1e6` and `Duration.Seconds()` are arguments.
  module _ (millions : ℤ → fl.Float) (seconds : ℕ → fl.Float) where
    abbrev pub read_capacity : Option (Radio fl.Float) → Option fl.Float
    read_capacity none = none
    read_capacity (some radio) = elim radio.capacity [
      | none ↦ none
      | some combined ↦ some (millions combined)
    ]

    abbrev pub offline_since : Device fl.Float → Policy → ℕ
    offline_since ds policy = if nat_beq ds.last_seen 0 then policy.created_at else ds.last_seen

    unfoldable pub offline_duration : Device fl.Float → Policy → ℕ → fl.Float
    offline_duration ds policy now =
        let start = offline_since ds policy in
        if not ds.is_offline
        then fl.of_int (pos 0)
        else if nat_beq start 0 || ltb now start
        then fl.of_int (pos 0)
        else seconds (now - start)

    unfoldable pub get_metric_value : Text → Device fl.Float → Policy → ℕ → Option fl.Float
    unfolding text_beq offline_duration max_radio_interference max_radio_chain_imbalance
        gps_sync_metric
    get_metric_value metric ds policy now =
        if metric == metric_signal_60ghz
        then read_signal ds.radio_60ghz
        else if metric == metric_signal_5ghz
        then read_signal ds.radio_5ghz
        else if metric == metric_signal_6ghz
        then read_6ghz ds.radio_6ghz
        else if metric == metric_signal_ltu
        then read_signal ds.radio_ltu
        else if metric == metric_cpu
        then some ds.cpu_usage
        else if metric == metric_temperature
        then some ds.temperature_cpu
        else if metric == metric_ram
        then some ds.mem_usage
        else if metric == metric_offline_duration
        then some (offline_duration ds policy now)
        else if metric == metric_peer_count
        then some (fl.of_int ds.peer_count)
        else if metric == metric_capacity
        then read_capacity ds.radio_60ghz
        else if metric == metric_link_score
        then read_int ds.link_score_dl
        else if metric == metric_interference
        then max_radio_interference ds
        else if metric == metric_chain_imbalance
        then max_radio_chain_imbalance ds
        else if metric == metric_gps_sync
        then gps_sync_metric ds
        else none
