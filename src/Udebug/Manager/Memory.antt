-- ===== src/Udebug/Manager/Memory.antt =====
-- The memory of all buffers together.
use wavecontrol.Prelude.{
  ℕ, ◌+◌, ◌*◌, ◌≤◌, Bool, true, false, List, [], ◌∷◌, ◌++◌, Option, none, some, ◌≡◌, refl, ap₂, ◌∙◌,
  arith, if◌then◌else◌, if-fst, length, Text, is_empty, leb_ℤ, ℤ, pos, nat_eq, int_eq, text_eq,
}
use wavecontrol.GoMap.{
  GoMap, lookup, AllValues, AllValues-insert, AllValues-delete, AllValues-lookup,
}
use wavecontrol.Udebug.Host.{normalize_host}
use wavecontrol.Udebug.Buffer
use wavecontrol.Udebug.Buffer.{Record, Buffer, BufferInfo}
use wavecontrol.Udebug.Buffer.Bounds.{
  total_size, SizesExact, append-IsBounded, new_buffer-IsBounded, clear-IsBounded, max_bytes-append,
  IsBounded,
}
use wavecontrol.Udebug.Manager.{
  new_manager, device_kind, host_kind, enable, disable, store_device, store_host, clear,
  record_entry, enable_host, disable_host, clear_host, record_host, device_infos, host_infos, list,
  Manager,
}
use wavecontrol.Udebug.Manager.Calls.{
  step, run, Call, enables, disables, clears, records, enables_host, disables_host, clears_host,
  records_host,
}

-- A buffer whose byte count is exact and within the manager's limit.
pub record Fits (max_bytes : ℕ) (b : Buffer) : Type 0 where
  pub limit : b.max_bytes ≡ max_bytes
  pub bounded : IsBounded b

pub record AllFit (m : Manager) : Type 0 where
  pub devices : AllValues (Fits m.max_bytes) m.device_bufs
  pub hosts : AllValues (Fits m.max_bytes) m.host_bufs

Fits-new_buffer :
    (now : ℕ) (kind : Text) (id : ℤ) (name : Text) (max_bytes : ℕ)
    → Fits max_bytes (Buffer.new_buffer now kind id name max_bytes)
unfolding Buffer.new_buffer
Fits-new_buffer now kind id name max_bytes = record {
  limit = refl;
  bounded = new_buffer-IsBounded now kind id name max_bytes;
}

Fits-clear :
    (now max_bytes : ℕ) (b : Buffer) → Fits max_bytes b → Fits max_bytes (Buffer.clear now b)
unfolding Buffer.clear
Fits-clear now max_bytes b h = record { limit = h.limit; bounded = clear-IsBounded now b }

Fits-append :
    (now : ℕ) (raw : Option Text) (max_bytes : ℕ) (b : Buffer)
    → Fits max_bytes b
    → Fits max_bytes (Buffer.append now raw b)
Fits-append now raw max_bytes b h = record {
  limit = max_bytes-append now raw b ∙ h.limit;
  bounded = append-IsBounded now raw b h.bounded;
}

module _ (change : Buffer → Buffer) (m : Manager)
    (keeps : (b : Buffer) → Fits m.max_bytes b → Fits m.max_bytes (change b)) where
  AllFit-store_device :
      (id : ℤ) (found : Option Buffer)
      → lookup id m.device_bufs ≡ found
      → AllFit m
      → AllFit (store_device id change m found)
  AllFit-store_device id none e h = h
  AllFit-store_device id (some b) e h = record {
    devices =
        AllValues-insert (Fits m.max_bytes) id (change b) m.device_bufs
          (keeps b (AllValues-lookup (Fits m.max_bytes) id m.device_bufs b e h.devices)) h.devices;
    hosts = h.hosts;
  }

  AllFit-store_host :
      (k : Text) (found : Option Buffer)
      → lookup k m.host_bufs ≡ found
      → AllFit m
      → AllFit (store_host k change m found)
  AllFit-store_host k none e h = h
  AllFit-store_host k (some b) e h = record {
    devices = h.devices;
    hosts =
        AllValues-insert (Fits m.max_bytes) k (change b) m.host_bufs
          (keeps b (AllValues-lookup (Fits m.max_bytes) k m.host_bufs b e h.hosts)) h.hosts;
  }

-- A guarded call keeps what both of its branches keep.
AllFit-if : (c : Bool) (m n : Manager) → AllFit m → AllFit n → AllFit (if c then m else n)
AllFit-if true m n h k = h
AllFit-if false m n h k = k

module _ {ℓ} {E : Type ℓ} (encode : E → Option Text) where
  pub AllFit-step : (call : Call E) (m : Manager) → AllFit m → AllFit (step encode call m)
  unfolding step
  AllFit-step (enables now id) m h =
      unfold enable in
      AllFit-if (leb_ℤ id (pos 0)) m _ h record {
        devices =
            AllValues-insert (Fits m.max_bytes) id _ m.device_bufs
              (Fits-new_buffer now device_kind id [] m.max_bytes) h.devices;
        hosts = h.hosts;
      }
  AllFit-step (disables id) m h =
      unfold disable in
      AllFit-if (leb_ℤ id (pos 0)) m _ h record {
        devices = AllValues-delete (Fits m.max_bytes) id m.device_bufs h.devices;
        hosts = h.hosts;
      }
  AllFit-step (clears now id) m h =
      unfold clear in
      rw (if-fst {A = Manager} {B = Bool}) (
        AllFit-if (leb_ℤ id (pos 0)) m _ h
          (AllFit-store_device (Buffer.clear now) m (Fits-clear now m.max_bytes) id _ refl h))
  AllFit-step (records now id entry) m h =
      unfold record_entry in
      AllFit-if (leb_ℤ id (pos 0)) m _ h (
        AllFit-store_device (Buffer.append now (encode entry)) m
          (Fits-append now (encode entry) m.max_bytes) id _ refl h)
  AllFit-step (enables_host now name) m h =
      unfold enable_host in
      rw (if-fst {A = Manager} {B = Text}) (
        AllFit-if (is_empty (normalize_host name)) m _ h record {
          devices = h.devices;
          hosts =
              AllValues-insert (Fits m.max_bytes) (normalize_host name) _ m.host_bufs
                (Fits-new_buffer now host_kind (pos 0) (normalize_host name) m.max_bytes) h.hosts;
        })
  AllFit-step (disables_host name) m h =
      unfold disable_host in
      AllFit-if (is_empty (normalize_host name)) m _ h record {
        devices = h.devices;
        hosts = AllValues-delete (Fits m.max_bytes) (normalize_host name) m.host_bufs h.hosts;
      }
  AllFit-step (clears_host now name) m h =
      unfold clear_host in
      rw (if-fst {A = Manager} {B = Bool}) (
        AllFit-if (is_empty (normalize_host name)) m _ h (
          AllFit-store_host (Buffer.clear now) m (Fits-clear now m.max_bytes) (normalize_host name)
            _ refl h))
  AllFit-step (records_host now name entry) m h =
      unfold record_host in
      AllFit-if (is_empty (normalize_host name)) m _ h (
        AllFit-store_host (Buffer.append now (encode entry)) m
          (Fits-append now (encode entry) m.max_bytes) (normalize_host name) _ refl h)

  AllFit-run : (calls : List (Call E)) (m : Manager) → AllFit m → AllFit (run encode calls m)
  unfolding run
  AllFit-run [] m h = h
  AllFit-run (call ∷ calls) m h = AllFit-run calls (step encode call m) (AllFit-step call m h)

AllFit-new_manager : (max_bytes : ℤ) → AllFit (new_manager max_bytes)
unfolding new_manager
AllFit-new_manager max_bytes = record { devices = tt; hosts = tt }

abbrev pub total_bytes : List BufferInfo → ℕ
total_bytes [] = 0
total_bytes (i ∷ rest) = i.bytes + total_bytes rest

total_bytes-append :
    (xs ys : List BufferInfo) → total_bytes (xs ++ ys) ≡ total_bytes xs + total_bytes ys
total_bytes-append [] ys = omega arith
total_bytes-append (x ∷ xs) ys = omega (arith, total_bytes-append xs ys)

-- The bytes that the records of a buffer, and those of all buffers of a map, take.
abbrev pub raw_bytes : List Record → ℕ
raw_bytes [] = 0
raw_bytes (r ∷ rest) = length r.raw + raw_bytes rest

abbrev pub map_bytes : {K : Type 0} → GoMap K Buffer → ℕ
map_bytes [] = 0
map_bytes ((k, b) ∷ m) = raw_bytes b.entries + map_bytes m

-- The bytes of the captured texts that a manager keeps alive.
abbrev pub held_bytes : Manager → ℕ
held_bytes m = map_bytes m.device_bufs + map_bytes m.host_bufs

total_size-raw_bytes :
    (entries : List Record) → SizesExact entries → total_size entries ≡ raw_bytes entries
total_size-raw_bytes [] h = refl
total_size-raw_bytes (r ∷ rest) (e, h) = omega (arith, e, total_size-raw_bytes rest h)

bytes-raw_bytes : (b : Buffer) → IsBounded b → b.bytes ≡ raw_bytes b.entries
bytes-raw_bytes b h = h.counted ∙ total_size-raw_bytes b.entries h.exact

module _ (max_bytes : ℕ) where
  total_bytes-device_infos :
      (format_int : ℤ → Text) (m : GoMap ℤ Buffer)
      → AllValues (Fits max_bytes) m
      → total_bytes (device_infos format_int m) ≡ map_bytes m
  unfolding Buffer.info
  total_bytes-device_infos format_int [] h = refl
  total_bytes-device_infos format_int ((id, b) ∷ m) (f, h) =
      omega (arith, total_bytes-device_infos format_int m h, bytes-raw_bytes b f.bounded)

  total_bytes-host_infos :
      (m : GoMap Text Buffer)
      → AllValues (Fits max_bytes) m
      → total_bytes (host_infos m) ≡ map_bytes m
  unfolding Buffer.info
  total_bytes-host_infos [] h = refl
  total_bytes-host_infos ((k, b) ∷ m) (f, h) =
      omega (arith, total_bytes-host_infos m h, bytes-raw_bytes b f.bounded)

  map_bytes-bound :
      {K : Type 0} (m : GoMap K Buffer)
      → AllValues (Fits max_bytes) m
      → map_bytes m ≤ length m * max_bytes
  map_bytes-bound [] h = omega arith
  map_bytes-bound ((k, b) ∷ m) (f, h) =
      omega (arith, map_bytes-bound m h, bytes-raw_bytes b f.bounded, f.bounded.within, f.limit)

-- The count that `List` shows is what is held, and that is bounded.
pub total_bytes-list_of :
    (format_int : ℤ → Text) (m : Manager)
    → AllFit m
    → (total_bytes (list format_int m) ≡ held_bytes m)
      × (held_bytes m ≤ (length m.device_bufs + length m.host_bufs) * m.max_bytes)
unfolding list
total_bytes-list_of format_int m h =
    let devices = device_infos format_int m.device_bufs in
    let hosts = host_infos m.host_bufs in
    (
      total_bytes-append devices hosts
          ∙ ap₂ ◌+◌ (total_bytes-device_infos m.max_bytes format_int m.device_bufs h.devices)
              (total_bytes-host_infos m.max_bytes m.host_bufs h.hosts),
      omega (
        arith,
        map_bytes-bound m.max_bytes m.device_bufs h.devices,
        map_bytes-bound m.max_bytes m.host_bufs h.hosts,
      ),
    )

module _ {ℓ} {E : Type ℓ} (encode : E → Option Text) where
  -- After any calls on a new manager, the captured texts that its buffers hold have together exactly
  -- the bytes that `List` reports, and these are at most the number of buffers times the limit of one
  -- buffer.
  pub total_bytes-list :
      (max_bytes : ℤ) (calls : List (Call E)) (format_int : ℤ → Text)
      → let m = run encode calls (new_manager max_bytes) in
        (total_bytes (list format_int m) ≡ held_bytes m)
        × (held_bytes m ≤ (length m.device_bufs + length m.host_bufs) * m.max_bytes)
  total_bytes-list max_bytes calls format_int =
      total_bytes-list_of format_int (run encode calls (new_manager max_bytes))
        (AllFit-run encode calls (new_manager max_bytes) (AllFit-new_manager max_bytes))
