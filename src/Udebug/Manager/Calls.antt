-- ===== src/Udebug/Manager/Calls.antt =====
-- The calls that change the manager, and the targets that they address.
use wavecontrol.Prelude.{
  ℕ, zero, suc, List, [], ◌∷◌, Option, none, some, Text, ℤ, pos, negsuc, nat_eq, int_eq, text_eq,
}
use wavecontrol.GoMap.{lookup}
use wavecontrol.Udebug.Host.{normalize_host}
use wavecontrol.Udebug.Buffer
use wavecontrol.Udebug.Buffer.{Buffer}
use wavecontrol.Udebug.Manager.{
  device_kind, host_kind, enable, disable, clear, record_entry, enable_host, disable_host,
  clear_host, record_host, Manager,
}

pub data Target : Type 0 where
  device : ℤ → Target
  host : Text → Target

abbrev pub buffer_of : Target → Manager → Option Buffer
buffer_of (device id) m = lookup id m.device_bufs
buffer_of (host h) m = lookup h m.host_bufs

-- The calls that change the manager, with the time at which they are made.
pub data Call {ℓ} (E : Type ℓ) : Type ℓ where
  enables : ℕ → ℤ → Call E
  disables : ℤ → Call E
  clears : ℕ → ℤ → Call E
  records : ℕ → ℤ → E → Call E
  enables_host : ℕ → Text → Call E
  disables_host : Text → Call E
  clears_host : ℕ → Text → Call E
  records_host : ℕ → Text → E → Call E

-- A device id is valid if it is positive, a host if its key is not empty.
abbrev pub valid_device : ℤ → Option Target
valid_device (pos zero) = none
valid_device (pos (suc n)) = some (device (pos (suc n)))
valid_device (negsuc n) = none

abbrev pub valid_host : Text → Option Target
valid_host [] = none
valid_host (c ∷ h) = some (host (c ∷ h))

abbrev pub target_of {ℓ} : {E : Type ℓ} → Call E → Option Target
target_of (enables now id) = valid_device id
target_of (disables id) = valid_device id
target_of (clears now id) = valid_device id
target_of (records now id entry) = valid_device id
target_of (enables_host now name) = valid_host (normalize_host name)
target_of (disables_host name) = valid_host (normalize_host name)
target_of (clears_host now name) = valid_host (normalize_host name)
target_of (records_host now name entry) = valid_host (normalize_host name)

abbrev pub on_some {ℓ} : {A : Type ℓ} → (A → A) → Option A → Option A
on_some f none = none
on_some f (some a) = some (f a)

module _ {ℓ} {E : Type ℓ} (encode : E → Option Text) where
  -- The manager behind each call.
  unfoldable pub step : Call E → Manager → Manager
  step (enables now id) m = enable now id m
  step (disables id) m = disable id m
  step (clears now id) m = (clear now id m).0
  step (records now id entry) m = record_entry encode now id entry m
  step (enables_host now name) m = (enable_host now name m).0
  step (disables_host name) m = disable_host name m
  step (clears_host now name) m = (clear_host now name m).0
  step (records_host now name entry) m = record_host encode now name entry m

  -- A sequence of calls, in the order in which they took the lock.
  unfoldable pub run : List (Call E) → Manager → Manager
  run [] m = m
  run (call ∷ calls) m = run calls (step call m)

  -- What a call does to the buffer of its target.
  abbrev pub effect : ℕ → Call E → Option Buffer → Option Buffer
  effect max_bytes (enables now id) b = some (Buffer.new_buffer now device_kind id [] max_bytes)
  effect max_bytes (disables id) b = none
  effect max_bytes (clears now id) b = on_some (Buffer.clear now) b
  effect max_bytes (records now id entry) b = on_some (Buffer.append now (encode entry)) b
  effect max_bytes (enables_host now name) b =
      some (Buffer.new_buffer now host_kind (pos 0) (normalize_host name) max_bytes)
  effect max_bytes (disables_host name) b = none
  effect max_bytes (clears_host now name) b = on_some (Buffer.clear now) b
  effect max_bytes (records_host now name entry) b = on_some (Buffer.append now (encode entry)) b
