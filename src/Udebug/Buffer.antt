-- ===== src/Udebug/Buffer.antt =====
-- internal/udebug/manager.go, `buffer` and `record`: one ring buffer, bounded by its bytes. The
-- mutex makes each method one step, so a method is a function from the buffer to the buffer.
-- `time.Now()` is the argument `now`, and the result of `json.Marshal` is an argument too.
pub mod Bounds
pub mod Eviction
use wavecontrol.Prelude.{
  ℕ, ◌+◌, ◌-◌, ◌&&◌, List, [], ◌∷◌, ◌++◌, Option, none, some, ltb, leb, if◌then◌else◌, length, take,
  Text, codes, pos_part, ltb_ℤ, ℤ, pos,
}

pub record Record : Type 0 where
  pub raw : Text
  pub size : ℕ

pub record Buffer : Type 0 where
  pub kind : Text
  pub device_id : ℤ
  pub host : Text
  pub created : ℕ
  pub updated : ℕ
  pub max_bytes : ℕ
  pub bytes : ℕ
  pub entries : List Record

pub record BufferInfo : Type 0 where
  pub key : Text
  pub kind : Text
  pub device_id : ℤ
  pub host : Text
  pub created : ℕ
  pub updated : ℕ
  pub bytes : ℕ
  pub entries : ℕ

pub record Snapshot : Type 0 where
  pub key : Text
  pub kind : Text
  pub device_id : ℤ
  pub host : Text
  pub created : ℕ
  pub updated : ℕ
  pub bytes : ℕ
  pub entries : ℕ
  pub log : List Text

unfoldable pub new_buffer : ℕ → Text → ℤ → Text → ℕ → Buffer
new_buffer now kind device_id host max_bytes = record {
  kind = kind;
  device_id = device_id;
  host = host;
  created = now;
  updated = now;
  max_bytes = max_bytes;
  bytes = 0;
  entries = [];
}

unfoldable pub clear : ℕ → Buffer → Buffer
clear now b = record b { created = now; updated = now; bytes = 0; entries = [] }

unfoldable pub info : Buffer → BufferInfo
info b = record {
  key = [];
  kind = b.kind;
  device_id = b.device_id;
  host = b.host;
  created = b.created;
  updated = b.updated;
  bytes = b.bytes;
  entries = length b.entries;
}

-- The loop of `snapshot`: `i` counts the entries that were passed.
unfoldable pub collect : ℕ → ℕ → List Record → List Text
collect start i [] = []
collect start i (r ∷ rest) =
    let log = collect start (i + 1) rest in if leb start i then r.raw ∷ log else log

unfoldable pub snapshot_start : ℤ → ℕ → ℕ
snapshot_start tail n = if ltb_ℤ (pos 0) tail && ltb_ℤ tail (pos n) then n - pos_part tail else 0

unfoldable pub snapshot : ℤ → Buffer → Snapshot
unfolding collect snapshot_start
snapshot tail b = record {
  key = [];
  kind = b.kind;
  device_id = b.device_id;
  host = b.host;
  created = b.created;
  updated = b.updated;
  bytes = b.bytes;
  entries = length b.entries;
  log = collect (snapshot_start tail (length b.entries)) 0 b.entries;
}

-- `for b.bytes+size > b.maxBytes && b.entries.Len() > 0`: drops records from the front.
unfoldable pub evict : ℕ → ℕ → ℕ → List Record → ℕ × List Record
evict max_bytes size bytes [] = (bytes, [])
evict max_bytes size bytes (r ∷ rest) =
    let dropped = evict max_bytes size (bytes - r.size) rest in
    if ltb max_bytes (bytes + size) then dropped else (bytes, r ∷ rest)

abbrev pub marshal_error : Text
marshal_error =
    codes "{\"type\":\"marshal_error\",\"error\":\"unable to marshal ultra debug entry\"}"

-- `none` is an error of `json.Marshal`.
abbrev pub or_marshal_error : Option Text → Text
or_marshal_error none = marshal_error
or_marshal_error (some raw) = raw

-- The part of `append` behind the marshalling.
unfoldable pub push : ℕ → Text → Buffer → Buffer
push now raw b =
    let size = length raw in
    let kept = evict b.max_bytes size b.bytes b.entries in
    if ltb b.max_bytes size
    then (let trunc = take b.max_bytes raw in
        record b {
          updated = now;
          bytes = length trunc;
          entries = record { raw = trunc; size = length trunc } ∷ [];
        })
    else record b {
      updated = now;
      bytes = kept.0 + size;
      entries = kept.1 ++ (record { raw = raw; size = size } ∷ []);
    }

unfoldable pub append : ℕ → Option Text → Buffer → Buffer
unfolding push
append now marshalled b = push now (or_marshal_error marshalled) b
