-- ===== src/Stats/Throughput.antt =====
-- internal/stats/store.go, the throughput history of `Store`: a ring of the last sixty samples.
-- Rates and their sums are the 64-bit patterns of the source's int64.
pub mod Newest
pub mod Reading
use wavecontrol.Prelude.{
  ℕ, zero, suc, ◌+◌, ◌%◌, ◌^◌, Bool, List, [], ◌∷◌, Option, none, some, ltb, nat_beq, if◌then◌else◌,
  get_elem?, set, take, replicate,
}

abbrev pub throughput_history_size : ℕ
throughput_history_size = 60

pub record ThroughputSample : Type 0 where
  pub timestamp : ℕ
  pub tx_rate : ℕ
  pub rx_rate : ℕ
  pub online : ℕ
  pub offline : ℕ

-- What a sample reads of a device.
pub record DeviceRates : Type 0 where
  pub is_online : Bool
  pub device_tx : ℕ
  pub device_rx : ℕ

abbrev pub zero_sample : ThroughputSample
zero_sample = record { timestamp = 0; tx_rate = 0; rx_rate = 0; online = 0; offline = 0 }

abbrev pub add_rates : DeviceRates → ThroughputSample → ThroughputSample
add_rates d t =
    if d.is_online
    then record t {
      online = t.online + 1;
      tx_rate = (t.tx_rate + d.device_tx) % 2 ^ 64;
      rx_rate = (t.rx_rate + d.device_rx) % 2 ^ 64;
    }
    else record t { offline = t.offline + 1 }

unfoldable pub total_rates : List DeviceRates → ThroughputSample → ThroughputSample
total_rates [] t = t
total_rates (d ∷ rest) t = total_rates rest (add_rates d t)

pub record Ring : Type 0 where
  pub history : List ThroughputSample
  pub index : ℕ
  pub count : ℕ

abbrev pub new_ring : Ring
new_ring = record { history = replicate throughput_history_size zero_sample; index = 0; count = 0 }

unfoldable pub store_sample : ThroughputSample → Ring → Ring
store_sample sample r = record {
  history = set r.history r.index sample;
  index = (r.index + 1) % throughput_history_size;
  count = if ltb r.count throughput_history_size then r.count + 1 else r.count;
}

-- The sample that is taken at a time of the devices of then.
abbrev pub sample_of : ℕ × List DeviceRates → ThroughputSample
sample_of (now, devices) = record (total_rates devices zero_sample) { timestamp = now }

unfoldable pub record_throughput_sample : ℕ × List DeviceRates → Ring → Ring
record_throughput_sample poll r = store_sample (sample_of poll) r

abbrev pub copy_to : List ThroughputSample → Option ThroughputSample → List ThroughputSample
copy_to rest none = []
copy_to rest (some x) = x ∷ rest

-- The loop that reads the full ring: `left` samples from the index `i` on, modulo the size.
unfoldable pub read_from : List ThroughputSample → ℕ → ℕ → List ThroughputSample
read_from history i zero = []
read_from history i (suc left) =
    copy_to (read_from history (suc i) left) (get_elem? history (i % throughput_history_size))

unfoldable pub get_throughput_history : Ring → List ThroughputSample
get_throughput_history r =
    if nat_beq r.count 0
    then []
    else if ltb r.count throughput_history_size
    then take r.count r.history
    else read_from r.history r.index throughput_history_size
