-- ===== src/Udebug/Examples.antt =====
-- Concrete runs of the capture buffers.
use wavecontrol.Prelude.{
  ◌+◌, ◌*◌, ◌≤◌, List, [], ◌∷◌, ◌++◌, map, none, some, ◌≡◌, refl, arith, length, All, Text, codes,
  to_lower, pos, is_space, trim_space, trim_prefix, before_any, last_index_byte, split_host_port,
  nat_eq, int_eq, text_eq,
}
use wavecontrol.GoMap.{lookup}
use wavecontrol.Udebug.Host.{ends_authority, is_bracket, host_of_authority, normalize_host}
use wavecontrol.Udebug.Host.Key.{IsKeyByte, normalize_host-IsKeyByte}
use wavecontrol.Udebug.Host.Url.{https_url, normalize_host-https_url}
use wavecontrol.Udebug.Buffer.{snapshot, evict, push, append, Record, Buffer}
use wavecontrol.Udebug.Buffer.Bounds.{append-IsBounded, IsBounded}
use wavecontrol.Udebug.Buffer.Eviction.{shown, snapshot-log}
use wavecontrol.Udebug.Manager.{Manager, new_manager, list}
use wavecontrol.Udebug.Manager.Calls.{
  buffer_of, step, run, effect, device, Call, enables, disables, records, enables_host,
  records_host,
}
use wavecontrol.Udebug.Manager.Refines.{step-buffer_of, replay, run-buffer_of}
use wavecontrol.Udebug.Manager.Memory.{total_bytes, held_bytes, total_bytes-list}

normalize_url :
    normalize_host (codes " https://admin:pw@Tower-1.Example:8443/cgi?x=1 ")
    ≡ codes "tower-1.example"
unfolding normalize_host host_of_authority ends_authority is_bracket trim_space trim_prefix
    before_any last_index_byte split_host_port to_lower
normalize_url = refl

normalize_host-IsKeyByte_example : All IsKeyByte (normalize_host (codes "HTTP://Tower/x?y"))
normalize_host-IsKeyByte_example = normalize_host-IsKeyByte (codes "HTTP://Tower/x?y")

normalize_host-https_url_example :
    normalize_host (https_url (codes "admin:pw") (codes "Tower-1") (codes "8443") (codes "cgi?x=1"))
    ≡ to_lower (codes "Tower-1")
unfolding is_space ends_authority
normalize_host-https_url_example =
    normalize_host-https_url (codes "admin:pw") b'T' (codes "ower-1") (codes "8443")
      (codes "cgi?x=1") (refl, (refl, (refl, (refl, (refl, (refl, (refl, (refl, tt))))))))
      (refl, (refl, (refl, (refl, (refl, (refl, (refl, (refl, tt))))))))
      (refl, (refl, (refl, (refl, (refl, (refl, (refl, tt))))))) (refl, (refl, (refl, (refl, tt))))
      (refl, (refl, (refl, (refl, (refl, (refl, (refl, tt)))))))

-- A buffer of ten bytes that holds "abcd" and "efg".
abbrev full : Buffer
full = record {
  kind = codes "device";
  device_id = pos 7;
  host = [];
  created = 1;
  updated = 3;
  max_bytes = 10;
  bytes = 7;
  entries = record { raw = codes "abcd"; size = 4 } ∷ record { raw = codes "efg"; size = 3 } ∷ [];
}

full-IsBounded : IsBounded full
full-IsBounded = record { counted = refl; exact = (refl, (refl, tt)); within = omega arith }

evicts_oldest :
    (append 4 (some (codes "123456")) full).entries
    ≡ record { raw = codes "efg"; size = 3 } ∷ record { raw = codes "123456"; size = 6 } ∷ []
unfolding append push evict
evicts_oldest = refl

append-IsBounded_example : IsBounded (append 4 (some (codes "123456")) full)
append-IsBounded_example = append-IsBounded 4 (some (codes "123456")) full full-IsBounded

snapshot-log_example :
    (older newer : List Record) × (full.entries ≡ older ++ newer)
    × ((snapshot (pos 1) full).log ≡ map (λ r. r.raw) newer)
    × (length newer ≡ shown (pos 1) (length full.entries))
    × ((snapshot (pos 1) full).entries ≡ length full.entries)
snapshot-log_example = snapshot-log (pos 1) full

-- Calls on two devices and a host, interleaved; the device 0 is refused.
abbrev calls : List (Call Text)
calls =
    enables 1 (pos 7)
    ∷ enables_host 2 (codes "tower")
    ∷ records 3 (pos 7) (codes "abc")
    ∷ records 4 (pos 0) (codes "zzz")
    ∷ records_host 5 (codes "tower") (codes "de")
    ∷ disables (pos 9)
    ∷ []

abbrev start : Manager
start = record { max_bytes = 10; device_bufs = []; host_bufs = [] }

abbrev first_call : Call Text
first_call = enables 1 (pos 7)

step-buffer_of_example :
    buffer_of (device (pos 7)) (step some first_call start) ≡ effect some 10 first_call none
unfolding lookup
step-buffer_of_example = step-buffer_of some first_call (device (pos 7)) start

run-buffer_of_example :
    buffer_of (device (pos 7)) (run some calls start) ≡ replay some 10 (device (pos 7)) calls none
unfolding lookup
run-buffer_of_example = run-buffer_of some calls (device (pos 7)) start

total_bytes-list_example :
    let m = run some calls (new_manager (pos 10)) in
    (total_bytes (list (λ _. []) m) ≡ held_bytes m)
    × (held_bytes m ≤ (length m.device_bufs + length m.host_bufs) * m.max_bytes)
total_bytes-list_example = total_bytes-list some (pos 10) calls (λ _. [])
