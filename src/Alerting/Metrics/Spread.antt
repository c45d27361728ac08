-- ===== src/Alerting/Metrics/Spread.antt =====
-- The imbalance between the chains of a radio.
use wavecontrol.Prelude.{
  ℕ, suc, ◌+◌, ◌-◌, ◌≤◌, min, max, false, ◌||◌, List, [], ◌∷◌, Option, none, some, ◌≡◌, refl, ap,
  ◌∙◌, arith, ltb, if◌then◌else◌, length, sub_ℤ, ℤ, pos, negsuc,
}
use wavecontrol.Alerting.Metrics.{widen, span_from, no_span, chain_spread, Span}

-- The depths below -1 dBm of the readings; a value of at least 0 dBm is a missing reading.
pub readings : List ℤ → List ℕ
readings [] = []
readings (pos n ∷ chains) = readings chains
readings (negsuc n ∷ chains) = n ∷ readings chains

module _ (choose : ℕ → ℕ → ℕ) where
  pub choose_over : ℕ → List ℕ → ℕ
  choose_over best [] = best
  choose_over best (n ∷ l) = choose_over (choose best n) l

-- The difference between the deepest and the least deep one of two readings or more.
pub depth_spread : List ℕ → Option ℤ
unfolding choose_over
depth_spread [] = none
depth_spread (n ∷ []) = none
depth_spread (n ∷ m ∷ l) = some (pos (choose_over max n (m ∷ l) - choose_over min n (m ∷ l)))

abbrev span : ℕ → ℕ → ℕ → Span
span deep shallow count = record { lowest = negsuc deep; highest = negsuc shallow; count = count }

max_lem : (deep n : ℕ) → max deep n ≡ (if ltb deep n then n else deep)
max_lem deep n = ground arith

min_lem : (shallow n : ℕ) → min shallow n ≡ (if ltb n shallow then n else shallow)
min_lem shallow n = ground arith

widen-span :
    (deep shallow count n : ℕ)
    → widen (span deep shallow (suc count)) (negsuc n)
      ≡ span (max deep n) (min shallow n) (suc (suc count))
widen-span deep shallow count n = rw (max_lem deep n, min_lem shallow n) (ground arith)

span_from-readings :
    (deep shallow count : ℕ) (chains : List ℤ)
    → span_from (span deep shallow (suc count)) chains
      ≡ span
          (choose_over max deep (readings chains))
          (choose_over min shallow (readings chains))
          (suc count + length (readings chains))
unfolding span_from choose_over readings
span_from-readings deep shallow count [] = ap (span deep shallow) (omega arith)
span_from-readings deep shallow count (pos n ∷ chains) =
    span_from-readings deep shallow count chains
span_from-readings deep shallow count (negsuc n ∷ chains) =
    ap (λ s. span_from s chains) (widen-span deep shallow count n)
    ∙ span_from-readings (max deep n) (min shallow n) (suc count) chains
    ∙ ap
        (span (choose_over max (max deep n) (readings chains))
          (choose_over min (min shallow n) (readings chains)))
        (omega arith)

abbrev first_span : List ℕ → Span
first_span [] = no_span
first_span (n ∷ l) = span (choose_over max n l) (choose_over min n l) (suc (length l))

span_from_none : (chains : List ℤ) → span_from no_span chains ≡ first_span (readings chains)
unfolding span_from readings
span_from_none [] = refl
span_from_none (pos n ∷ chains) = span_from_none chains
span_from_none (negsuc n ∷ chains) =
    span_from-readings n n 0 chains
    ∙ ap (span (choose_over max n (readings chains)) (choose_over min n (readings chains)))
        (omega arith)

length-readings : (chains : List ℤ) → length (readings chains) ≤ length chains
unfolding readings
length-readings [] = omega arith
length-readings (pos n ∷ chains) = omega (arith, length-readings chains)
length-readings (negsuc n ∷ chains) = omega (arith, length-readings chains)

min-max :
    (shallow deep : ℕ) (l : List ℕ)
    → shallow ≤ deep
    → choose_over min shallow l ≤ choose_over max deep l
unfolding choose_over
min-max shallow deep [] h = h
min-max shallow deep (n ∷ l) h = min-max (min shallow n) (max deep n) l (omega arith)

sub-negsuc :
    (shallow deep : ℕ)
    → shallow ≤ deep
    → sub_ℤ (negsuc shallow) (negsuc deep) ≡ pos (deep - shallow)
sub-negsuc shallow deep h = ground arith

spread_lem :
    (total : ℕ) (l : List ℕ)
    → length l ≤ total
    → (let s = first_span l in
        if ltb total 2 || ltb s.count 2 then none else some (sub_ℤ s.highest s.lowest))
      ≡ depth_spread l
unfolding depth_spread
spread_lem total [] h = ground arith
spread_lem total (n ∷ []) h = ground arith
spread_lem total (n ∷ m ∷ l) h =
    let first : ltb total 2 ≡ false = ground arith in
    let second : ltb (suc (suc (length l))) 2 ≡ false = ground arith in
    rw (first, second)
      (ap some (
        sub-negsuc (choose_over min (min n m) l) (choose_over max (max n m) l)
          (min-max (min n m) (max n m) l (omega arith))))

-- The imbalance of a radio is the distance between its extreme readings, where it has two of them:
-- missing readings neither count nor widen it.
pub chain_spread-readings : (chains : List ℤ) → chain_spread chains ≡ depth_spread (readings chains)
unfolding chain_spread
chain_spread-readings chains =
    rw (span_from_none chains)
      (spread_lem (length chains) (readings chains) (length-readings chains))
