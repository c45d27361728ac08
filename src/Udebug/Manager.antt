-- ===== src/Udebug/Manager.antt =====
-- internal/udebug/manager.go, `Manager`: a buffer for each device or host under capture. A method
-- holds the lock around one map access; the model makes each method one step. `sanitizeEntry` with
-- the first `json.Marshal` of `buffer.append` enters as `encode`, the second use of
-- `json.Marshal`, on the log, as `marshal_log`: both answer `none` for an error.
pub mod Calls
pub mod Refines
pub mod Memory
use wavecontrol.Prelude.{
  ℕ, ◌*◌, ◌^◌, Bool, true, false, List, [], ◌++◌, map, Option, none, some, if◌then◌else◌, Text,
  codes, is_empty, pos_part, leb_ℤ, ℤ, pos, nat_eq, int_eq, text_eq,
}
use wavecontrol.GoMap.{GoMap, lookup, delete, insert}
use wavecontrol.Udebug.Host.{normalize_host}
use wavecontrol.Udebug.Buffer
use wavecontrol.Udebug.Buffer.{Buffer, BufferInfo, Snapshot}

-- 32 << 20
abbrev pub default_max_bytes : ℕ
default_max_bytes = 32 * 2 ^ 20

pub record Manager : Type 0 where
  pub max_bytes : ℕ
  pub device_bufs : GoMap ℤ Buffer
  pub host_bufs : GoMap Text Buffer

unfoldable pub new_manager : ℤ → Manager
new_manager max_bytes = record {
  max_bytes = if leb_ℤ max_bytes (pos 0) then default_max_bytes else pos_part max_bytes;
  device_bufs = [];
  host_bufs = [];
}

abbrev pub device_kind : Text
device_kind = codes "device"

abbrev pub host_kind : Text
host_kind = codes "host"

unfoldable pub enable : ℕ → ℤ → Manager → Manager
enable now device_id m = if leb_ℤ device_id (pos 0) then m else record m {
  device_bufs =
      insert device_id (Buffer.new_buffer now device_kind device_id [] m.max_bytes) m.device_bufs;
}

unfoldable pub disable : ℤ → Manager → Manager
disable device_id m =
    if leb_ℤ device_id (pos 0) then m else record m { device_bufs = delete device_id m.device_bufs }

-- A buffer is shared by its pointer: what a method does to it is seen in the map.
abbrev pub store_device : ℤ → (Buffer → Buffer) → Manager → Option Buffer → Manager
store_device device_id change m none = m
store_device device_id change m (some b) = record m {
  device_bufs = insert device_id (change b) m.device_bufs;
}

abbrev pub update_device : ℤ → (Buffer → Buffer) → Manager → Manager
update_device device_id change m = store_device device_id change m (lookup device_id m.device_bufs)

abbrev pub store_host : Text → (Buffer → Buffer) → Manager → Option Buffer → Manager
store_host host change m none = m
store_host host change m (some b) = record m { host_bufs = insert host (change b) m.host_bufs }

abbrev pub update_host : Text → (Buffer → Buffer) → Manager → Manager
update_host host change m = store_host host change m (lookup host m.host_bufs)

abbrev pub is_some {ℓ} : {A : Type ℓ} → Option A → Bool
is_some none = false
is_some (some a) = true

unfoldable pub clear : ℕ → ℤ → Manager → Manager × Bool
clear now device_id m =
    if leb_ℤ device_id (pos 0)
    then (m, false)
    else (update_device device_id (Buffer.clear now) m, is_some (lookup device_id m.device_bufs))

unfoldable pub is_enabled : ℤ → Manager → Bool
is_enabled device_id m =
    if leb_ℤ device_id (pos 0) then false else is_some (lookup device_id m.device_bufs)

unfoldable pub record_entry {ℓ} : {E : Type ℓ} → (E → Option Text) → ℕ → ℤ → E → Manager → Manager
record_entry encode now device_id entry m =
    if leb_ℤ device_id (pos 0)
    then m
    else update_device device_id (Buffer.append now (encode entry)) m

-- `"device:" + strconv.FormatInt(deviceID, 10)`: the decimal digits are an argument.
abbrev pub device_key : (ℤ → Text) → ℤ → Text
device_key format_int device_id = codes "device:" ++ format_int device_id

abbrev pub host_key : Text → Text
host_key host = codes "host:" ++ host

-- `none` is the answer `Snapshot{}, false`.
unfoldable pub snapshot : (ℤ → Text) → ℤ → ℤ → Manager → Option Snapshot
snapshot format_int device_id tail m =
    if leb_ℤ device_id (pos 0) then none else elim (lookup device_id m.device_bufs) [
      | none ↦ none
      | some b ↦ some (record (Buffer.snapshot tail b) { key = device_key format_int device_id })
    ]

pub data Download : Type 0 where
  absent : Download
  failed : Download
  body : Text → Download

abbrev pub download_of : (List Text → Option Text) → Option Snapshot → Download
download_of marshal_log none = absent
download_of marshal_log (some s) = elim (marshal_log s.log) [ none ↦ failed | some t ↦ body t ]

unfoldable pub download : (ℤ → Text) → (List Text → Option Text) → ℤ → Manager → Download
download format_int marshal_log device_id m =
    download_of marshal_log (snapshot format_int device_id (pos 0) m)

-- The methods for hosts return early where the normalized host is empty.
unfoldable pub enable_host : ℕ → Text → Manager → Manager × Text
enable_host now host m =
    let h = normalize_host host in
    if is_empty h then (m, []) else (
      record m {
        host_bufs = insert h (Buffer.new_buffer now host_kind (pos 0) h m.max_bytes) m.host_bufs;
      },
      h,
    )

unfoldable pub disable_host : Text → Manager → Manager
disable_host host m =
    let h = normalize_host host in
    if is_empty h then m else record m { host_bufs = delete h m.host_bufs }

unfoldable pub clear_host : ℕ → Text → Manager → Manager × Bool
clear_host now host m =
    let h = normalize_host host in
    if is_empty h
    then (m, false)
    else (update_host h (Buffer.clear now) m, is_some (lookup h m.host_bufs))

unfoldable pub is_host_enabled : Text → Manager → Bool
is_host_enabled host m =
    let h = normalize_host host in if is_empty h then false else is_some (lookup h m.host_bufs)

unfoldable pub record_host {ℓ} : {E : Type ℓ} → (E → Option Text) → ℕ → Text → E → Manager → Manager
record_host encode now host entry m =
    let h = normalize_host host in
    if is_empty h then m else update_host h (Buffer.append now (encode entry)) m

unfoldable pub snapshot_host : Text → ℤ → Manager → Option Snapshot
snapshot_host host tail m =
    let h = normalize_host host in
    if is_empty h then none else elim (lookup h m.host_bufs) [
      | none ↦ none
      | some b ↦ some (record (Buffer.snapshot tail b) { key = host_key h })
    ]

unfoldable pub download_host : (List Text → Option Text) → Text → Manager → Download
download_host marshal_log host m = download_of marshal_log (snapshot_host host (pos 0) m)

abbrev pub device_infos : (ℤ → Text) → GoMap ℤ Buffer → List BufferInfo
device_infos format_int = map λ e. record (Buffer.info e.1) { key = device_key format_int e.0 }

abbrev pub host_infos : GoMap Text Buffer → List BufferInfo
host_infos = map λ e. record (Buffer.info e.1) { key = host_key e.0 }

unfoldable pub list : (ℤ → Text) → Manager → List BufferInfo
list format_int m = device_infos format_int m.device_bufs ++ host_infos m.host_bufs
