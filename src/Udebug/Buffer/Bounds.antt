-- ===== src/Udebug/Buffer/Bounds.antt =====
-- The memory of a buffer stays within its limit, and its byte count is exact.
use wavecontrol.Prelude.{
  ℕ, ◌+◌, ◌-◌, ◌≤◌, ◌<◌, true, false, List, [], ◌∷◌, ◌++◌, inl, inr, Option, ◌≡◌, refl, arith, ltb,
  ltb→lt, ltb→le, Bool-cases, length, length-take, Text, ℤ,
}
use wavecontrol.Udebug.Buffer.{
  new_buffer, clear, evict, or_marshal_error, push, append, Record, Buffer,
}

abbrev pub total_size : List Record → ℕ
total_size [] = 0
total_size (r ∷ rest) = r.size + total_size rest

abbrev pub SizesExact : List Record → Type 0
SizesExact [] = Unit
SizesExact (r ∷ rest) = (r.size ≡ length r.raw) × SizesExact rest

pub record IsBounded (b : Buffer) : Type 0 where
  pub counted : b.bytes ≡ total_size b.entries
  pub exact : SizesExact b.entries
  pub within : b.bytes ≤ b.max_bytes

total_size-append : (xs ys : List Record) → total_size (xs ++ ys) ≡ total_size xs + total_size ys
total_size-append [] ys = omega arith
total_size-append (x ∷ xs) ys = omega (arith, total_size-append xs ys)

SizesExact-append : (xs ys : List Record) → SizesExact xs → SizesExact ys → SizesExact (xs ++ ys)
SizesExact-append [] ys h k = k
SizesExact-append (x ∷ xs) ys h k = (h.0, SizesExact-append xs ys h.1 k)

-- What eviction leaves is counted exactly, and has room for the new record if it can fit at all.
evict_counted :
    (max_bytes size bytes : ℕ) (entries : List Record)
    → bytes ≡ total_size entries
    → (evict max_bytes size bytes entries).0 ≡ total_size (evict max_bytes size bytes entries).1
unfolding evict
evict_counted max_bytes size bytes [] h = h
evict_counted max_bytes size bytes (r ∷ rest) h =
    ground (arith, evict_counted max_bytes size (bytes - r.size) rest)

evict_room :
    (max_bytes size bytes : ℕ) (entries : List Record)
    → bytes ≡ total_size entries
    → size ≤ max_bytes
    → (evict max_bytes size bytes entries).0 + size ≤ max_bytes
unfolding evict
evict_room max_bytes size bytes [] h k = omega arith
evict_room max_bytes size bytes (r ∷ rest) h k =
    ground (arith, evict_room max_bytes size (bytes - r.size) rest)

evict_exact :
    (max_bytes size bytes : ℕ) (entries : List Record)
    → SizesExact entries
    → SizesExact (evict max_bytes size bytes entries).1
unfolding evict
evict_exact max_bytes size bytes [] h = h
evict_exact max_bytes size bytes (r ∷ rest) h = elim (Bool-cases (ltb max_bytes (bytes + size))) [
  | inl full ↦ rw full (evict_exact max_bytes size (bytes - r.size) rest h.1)
  | inr room ↦ rw room h
]

-- One more record behind what eviction left: the bytes add up and stay within the limit.
push_small-IsBounded :
    (now : ℕ) (raw : Text) (b : Buffer)
    → length raw ≤ b.max_bytes
    → IsBounded b
    → IsBounded (push now raw b)
unfolding push
push_small-IsBounded now raw b fits h =
    let size = length raw in
    let kept = evict b.max_bytes size b.bytes b.entries in
    let small : ltb b.max_bytes size ≡ false = ground arith in
    let added : Record = record { raw = raw; size = size } in
    rw small record {
      counted = omega (
        arith,
        evict_counted b.max_bytes size b.bytes b.entries h.counted,
        total_size-append kept.1 (added ∷ []),
      );
      exact =
          SizesExact-append kept.1 (added ∷ []) (evict_exact _ _ _ b.entries h.exact) (refl, tt);
      within = evict_room b.max_bytes size b.bytes b.entries h.counted fits;
    }

push_large-IsBounded :
    (now : ℕ) (raw : Text) (b : Buffer) → b.max_bytes < length raw → IsBounded (push now raw b)
unfolding push
push_large-IsBounded now raw b large =
    let big : ltb b.max_bytes (length raw) ≡ true = ground arith in
    rw big record {
      counted = omega arith;
      exact = (refl, tt);
      within = omega (arith, length-take b.max_bytes raw);
    }

push-IsBounded : (now : ℕ) (raw : Text) (b : Buffer) → IsBounded b → IsBounded (push now raw b)
push-IsBounded now raw b h = elim (Bool-cases (ltb b.max_bytes (length raw))) [
  | inl big ↦ push_large-IsBounded now raw b (ltb→lt _ _ big)
  | inr small ↦ push_small-IsBounded now raw b (ltb→le _ _ small) h
]

-- Appending any entry, one that cannot be marshalled or that is larger than the whole buffer
-- included, keeps the byte count exact and within the limit.
pub append-IsBounded :
    (now : ℕ) (marshalled : Option Text) (b : Buffer)
    → IsBounded b
    → IsBounded (append now marshalled b)
unfolding append
append-IsBounded now marshalled b h = push-IsBounded now (or_marshal_error marshalled) b h

pub new_buffer-IsBounded :
    (now : ℕ) (kind : Text) (device_id : ℤ) (host : Text) (max_bytes : ℕ)
    → IsBounded (new_buffer now kind device_id host max_bytes)
unfolding new_buffer
new_buffer-IsBounded now kind device_id host max_bytes = record {
  counted = refl;
  exact = tt;
  within = omega arith;
}

pub clear-IsBounded : (now : ℕ) (b : Buffer) → IsBounded (clear now b)
unfolding clear
clear-IsBounded now b = record { counted = refl; exact = tt; within = omega arith }

pub max_bytes-append :
    (now : ℕ) (marshalled : Option Text) (b : Buffer)
    → (append now marshalled b).max_bytes ≡ b.max_bytes
unfolding append push
max_bytes-append now marshalled b = ground arith
