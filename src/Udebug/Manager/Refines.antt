-- ===== src/Udebug/Manager/Refines.antt =====
-- The abstract view of the manager: the buffer of each target, on which a call either acts or not.
use wavecontrol.Prelude.{
  ℕ, zero, suc, Bool, false, List, [], ◌∷◌, Option, none, some, ◌≡◌, refl, ap, ◌∙◌, arith,
  if◌then◌else◌, if-fst, ◌==◌, Text, text_beq_iff, is_empty, leb_ℤ, int_beq_iff, ℤ, pos, negsuc,
  nat_eq, int_eq, text_eq,
}
use wavecontrol.GoMap.{lookup, delete, insert, lookup-delete, lookup-insert}
use wavecontrol.Udebug.Host.{normalize_host}
use wavecontrol.Udebug.Buffer
use wavecontrol.Udebug.Buffer.{Buffer}
use wavecontrol.Udebug.Manager.{
  device_kind, host_kind, enable, disable, store_device, update_device, store_host, update_host,
  clear, record_entry, enable_host, disable_host, clear_host, record_host, Manager,
}
use wavecontrol.Udebug.Manager.Calls.{
  buffer_of, valid_device, valid_host, target_of, on_some, step, run, effect, Target, device, host,
  Call, enables, disables, clears, records, enables_host, disables_host, clears_host, records_host,
}

abbrev target_beq : Target → Target → Bool
target_beq (device a) (device b) = a == b
target_beq (host a) (host b) = a == b
target_beq _ _ = false

abbrev pub hits : Option Target → Target → Bool
hits none t = false
hits (some t) u = target_beq t u

-- An update of one device's buffer, seen from any device; likewise for hosts.
module _ (id j : ℤ) (change : Buffer → Buffer) (m : Manager) where
  lookup-update_device :
      (found : Option Buffer)
      → lookup id m.device_bufs ≡ found
      → lookup j (store_device id change m found).device_bufs
        ≡ (if id == j then on_some change (lookup j m.device_bufs) else lookup j m.device_bufs)
  lookup-update_device none e = ground (arith, int_beq_iff id j)
  lookup-update_device (some b) e =
      ground (arith, lookup-insert id j (change b) m.device_bufs, int_beq_iff id j)

module _ (k j : Text) (change : Buffer → Buffer) (m : Manager) where
  lookup-update_host :
      (found : Option Buffer)
      → lookup k m.host_bufs ≡ found
      → lookup j (store_host k change m found).host_bufs
        ≡ (if k == j then on_some change (lookup j m.host_bufs) else lookup j m.host_bufs)
  lookup-update_host none e = ground (arith, text_beq_iff k j)
  lookup-update_host (some b) e =
      ground (arith, lookup-insert k j (change b) m.host_bufs, text_beq_iff k j)

module _ (change : Buffer → Buffer) (m : Manager) where
  buffer_of-device_call :
      (id : ℤ) (t : Target)
      → buffer_of t (if leb_ℤ id (pos 0) then m else update_device id change m)
        ≡ (if hits (valid_device id) t then on_some change (buffer_of t m) else buffer_of t m)
  buffer_of-device_call (pos zero) t = refl
  buffer_of-device_call (negsuc n) t = ground arith
  buffer_of-device_call (pos (suc n)) (device j) =
      ground (arith, lookup-update_device (pos (suc n)) j change m _ refl)
  buffer_of-device_call (pos (suc n)) (host h) = ground arith

  buffer_of-host_call :
      (k : Text) (t : Target)
      → buffer_of t (if is_empty k then m else update_host k change m)
        ≡ (if hits (valid_host k) t then on_some change (buffer_of t m) else buffer_of t m)
  buffer_of-host_call [] t = refl
  buffer_of-host_call (c ∷ k) (device j) = device_untouched _
    where
      device_untouched :
          (found : Option Buffer)
          → lookup j (store_host (c ∷ k) change m found).device_bufs ≡ lookup j m.device_bufs
      device_untouched none = refl
      device_untouched (some b) = refl
  buffer_of-host_call (c ∷ k) (host h) =
      ground (arith, lookup-update_host (c ∷ k) h change m _ refl)

module _ (m : Manager) where
  buffer_of-insert_device :
      (b : Buffer) (id : ℤ) (t : Target)
      → buffer_of t
          (if leb_ℤ id (pos 0) then m else record m { device_bufs = insert id b m.device_bufs })
        ≡ (if hits (valid_device id) t then some b else buffer_of t m)
  buffer_of-insert_device b (pos zero) t = refl
  buffer_of-insert_device b (negsuc n) t = ground arith
  buffer_of-insert_device b (pos (suc n)) (device j) =
      ground (arith, lookup-insert (pos (suc n)) j b m.device_bufs)
  buffer_of-insert_device b (pos (suc n)) (host h) = ground arith

  buffer_of-delete_device :
      (id : ℤ) (t : Target)
      → buffer_of t
          (if leb_ℤ id (pos 0) then m else record m { device_bufs = delete id m.device_bufs })
        ≡ (if hits (valid_device id) t then none else buffer_of t m)
  buffer_of-delete_device (pos zero) t = refl
  buffer_of-delete_device (negsuc n) t = ground arith
  buffer_of-delete_device (pos (suc n)) (device j) =
      ground (arith, lookup-delete (pos (suc n)) j m.device_bufs)
  buffer_of-delete_device (pos (suc n)) (host h) = ground arith

  buffer_of-insert_host :
      (b : Buffer) (k : Text) (t : Target)
      → buffer_of t (if is_empty k then m else record m { host_bufs = insert k b m.host_bufs })
        ≡ (if hits (valid_host k) t then some b else buffer_of t m)
  buffer_of-insert_host b [] t = refl
  buffer_of-insert_host b (c ∷ k) (device j) = refl
  buffer_of-insert_host b (c ∷ k) (host h) = lookup-insert (c ∷ k) h b m.host_bufs

  buffer_of-delete_host :
      (k : Text) (t : Target)
      → buffer_of t (if is_empty k then m else record m { host_bufs = delete k m.host_bufs })
        ≡ (if hits (valid_host k) t then none else buffer_of t m)
  buffer_of-delete_host [] t = refl
  buffer_of-delete_host (c ∷ k) (device j) = refl
  buffer_of-delete_host (c ∷ k) (host h) = lookup-delete (c ∷ k) h m.host_bufs

module _ {ℓ} {E : Type ℓ} (encode : E → Option Text) where
  -- A call changes the buffer of its target in its own way, and no other buffer; a call with an
  -- invalid id or an empty host key changes none.
  pub step-buffer_of :
      (call : Call E) (t : Target) (m : Manager)
      → buffer_of t (step encode call m) ≡ (
          if hits (target_of call) t
          then effect encode m.max_bytes call (buffer_of t m)
          else buffer_of t m)
  unfolding step
  step-buffer_of (enables now id) t m =
      unfold enable in
      buffer_of-insert_device m (Buffer.new_buffer now device_kind id [] m.max_bytes) id t
  step-buffer_of (disables id) t m = unfold disable in buffer_of-delete_device m id t
  step-buffer_of (clears now id) t m =
      unfold clear in
      rw (if-fst {A = Manager} {B = Bool}) (buffer_of-device_call (Buffer.clear now) m id t)
  step-buffer_of (records now id entry) t m =
      unfold record_entry in buffer_of-device_call (Buffer.append now (encode entry)) m id t
  step-buffer_of (enables_host now name) t m =
      unfold enable_host in
      rw (if-fst {A = Manager} {B = Text}) (
        buffer_of-insert_host m
          (Buffer.new_buffer now host_kind (pos 0) (normalize_host name) m.max_bytes)
          (normalize_host name) t)
  step-buffer_of (disables_host name) t m =
      unfold disable_host in buffer_of-delete_host m (normalize_host name) t
  step-buffer_of (clears_host now name) t m =
      unfold clear_host in
      rw (if-fst {A = Manager} {B = Bool})
        (buffer_of-host_call (Buffer.clear now) m (normalize_host name) t)
  step-buffer_of (records_host now name entry) t m =
      unfold record_host in
      buffer_of-host_call (Buffer.append now (encode entry)) m (normalize_host name) t

  max_bytes-step : (call : Call E) (m : Manager) → (step encode call m).max_bytes ≡ m.max_bytes
  unfolding step enable disable clear record_entry enable_host disable_host clear_host record_host
  max_bytes-step (enables now id) m = ground arith
  max_bytes-step _ m = ground arith

  -- The same sequence on one buffer: the calls that hit its target, and no others.
  pub replay : ℕ → Target → List (Call E) → Option Buffer → Option Buffer
  replay max_bytes t [] b = b
  replay max_bytes t (call ∷ calls) b =
      replay max_bytes t calls
        (if hits (target_of call) t then effect encode max_bytes call b else b)

  -- After any calls, in any interleaving, the buffer of a target is what its own calls made of it.
  pub run-buffer_of :
      (calls : List (Call E)) (t : Target) (m : Manager)
      → buffer_of t (run encode calls m) ≡ replay m.max_bytes t calls (buffer_of t m)
  unfolding run replay
  run-buffer_of [] t m = refl
  run-buffer_of (call ∷ calls) t m =
      run-buffer_of calls t (step encode call m)
      ∙ ap (λ n. replay n t calls (buffer_of t (step encode call m))) (max_bytes-step call m)
      ∙ ap (replay m.max_bytes t calls) (step-buffer_of call t m)
