-- ===== src/Udebug/Buffer/Eviction.antt =====
-- Which records survive an append, and which a snapshot shows.
use wavecontrol.Prelude.{
  ℕ, zero, suc, ◌+◌, ◌-◌, ◌≤◌, ◌<◌, min, true, false, List, [], ◌∷◌, ◌++◌, map, ◌≡◌, refl, sym, ap,
  arith, leb, length, take, drop, length-drop, ℤ, pos, negsuc,
}
use wavecontrol.Udebug.Buffer.{collect, snapshot_start, snapshot, Record, Buffer}
use wavecontrol.Udebug.Buffer.Bounds.{total_size}

-- `k` records are dropped from the front, and with fewer dropped the new one would not fit.
abbrev pub DropsLeast : ℕ → ℕ → List Record → List Record → Type 0
DropsLeast max_bytes size entries kept =
    (k : ℕ) × (kept ≡ drop k entries)
    × ((j : ℕ) → j < k → max_bytes < total_size (drop j entries) + size)

collect_all :
    (start i : ℕ) (entries : List Record)
    → start ≤ i
    → collect start i entries ≡ map (λ r. r.raw) entries
unfolding collect
collect_all start i [] h = refl
collect_all start i (r ∷ rest) h =
    let reached : leb start i ≡ true = ground arith in
    rw reached (ap (◌∷◌ r.raw) (collect_all start (i + 1) rest (omega arith)))

collect-drop :
    (gap start i : ℕ) (entries : List Record)
    → start ≡ i + gap
    → collect start i entries ≡ map (λ r. r.raw) (drop gap entries)
unfolding collect
collect-drop zero start i entries h = collect_all start i entries (omega arith)
collect-drop (suc gap) start i [] h = refl
collect-drop (suc gap) start i (r ∷ rest) h =
    let early : leb start i ≡ false = ground arith in
    rw early (collect-drop gap start (i + 1) rest (omega arith))

take-drop {ℓ} : {A : Type ℓ} (n : ℕ) (xs : List A) → take n xs ++ drop n xs ≡ xs
take-drop zero xs = refl
take-drop (suc n) [] = refl
take-drop (suc n) (x ∷ xs) = ap (◌∷◌ x) (take-drop n xs)

-- The number of records that a caller asks for: all of them for a tail of zero or less.
abbrev pub shown : ℤ → ℕ → ℕ
shown (pos zero) n = n
shown (pos (suc t)) n = min (suc t) n
shown (negsuc t) n = n

snapshot_start-shown : (tail : ℤ) (n : ℕ) → snapshot_start tail n ≡ n - shown tail n
unfolding snapshot_start
snapshot_start-shown (pos zero) n = ground arith
snapshot_start-shown (pos (suc t)) n = ground arith
snapshot_start-shown (negsuc t) n = ground arith

shown-le : (tail : ℤ) (n : ℕ) → shown tail n ≤ n
shown-le (pos zero) n = omega arith
shown-le (pos (suc t)) n = omega arith
shown-le (negsuc t) n = omega arith

-- A snapshot's log is the newest `shown tail n` records in order, and it counts all of them.
pub snapshot-log :
    (tail : ℤ) (b : Buffer)
    → (older newer : List Record) × (b.entries ≡ older ++ newer)
      × ((snapshot tail b).log ≡ map (λ r. r.raw) newer)
      × (length newer ≡ shown tail (length b.entries))
      × ((snapshot tail b).entries ≡ length b.entries)
unfolding snapshot
snapshot-log tail b =
    let start = snapshot_start tail (length b.entries) in
    (
      take start b.entries,
      drop start b.entries,
      sym (take-drop start b.entries),
      collect-drop start start 0 b.entries (omega arith),
      omega (
        arith,
        length-drop start b.entries,
        snapshot_start-shown tail (length b.entries),
        shown-le tail (length b.entries),
      ),
      refl,
    )
