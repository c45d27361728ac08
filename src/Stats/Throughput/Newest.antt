-- ===== src/Stats/Throughput/Newest.antt =====
-- The history shows the newest samples, the oldest of them first.
use wavecontrol.Prelude.{
  ℕ, zero, suc, ◌+◌, ◌≤◌, ◌<◌, min, List, [], ◌∷◌, ◌++◌, ◌⊎◌, inl, inr, some, ◌≡◌, refl, sym, ap,
  ◌∙◌, arith, length, get_elem?, set, drop, replicate, length-append,
}
use wavecontrol.Stats.Throughput.{zero_sample, new_ring, store_sample, ThroughputSample, Ring}

-- The first `n` elements of a list that has the newest one first, in the order of time.
pub oldest_first : ℕ → List ThroughputSample → List ThroughputSample
oldest_first zero samples = []
oldest_first (suc n) [] = []
oldest_first (suc n) (sample ∷ older) = oldest_first n older ++ (sample ∷ [])

-- The ring after the given samples, the newest of them first.
unfoldable pub after_samples : List ThroughputSample → Ring
after_samples [] = new_ring
after_samples (sample ∷ older) = store_sample sample (after_samples older)

pub length-oldest_first :
    (n : ℕ) (samples : List ThroughputSample)
    → length (oldest_first n samples) ≡ min n (length samples)
unfolding oldest_first
length-oldest_first zero samples = omega arith
length-oldest_first (suc n) [] = omega arith
length-oldest_first (suc n) (s ∷ older) =
    omega (arith, length-oldest_first n older, length-append (oldest_first n older) (s ∷ []))

-- Beyond the length of the list the number does not matter.
oldest_first_all :
    (n m : ℕ) (samples : List ThroughputSample)
    → length samples ≤ n
    → length samples ≤ m
    → oldest_first n samples ≡ oldest_first m samples
unfolding oldest_first
oldest_first_all zero zero samples h k = refl
oldest_first_all zero (suc m) [] h k = refl
oldest_first_all zero (suc m) (s ∷ older) h k = absurd (omega arith)
oldest_first_all (suc n) zero [] h k = refl
oldest_first_all (suc n) zero (s ∷ older) h k = absurd (omega arith)
oldest_first_all (suc n) (suc m) [] h k = refl
oldest_first_all (suc n) (suc m) (s ∷ older) h k =
    ap (λ xs. xs ++ (s ∷ [])) (oldest_first_all n m older (omega arith) (omega arith))

drop_one-append :
    (xs ys : List ThroughputSample) → 0 < length xs → drop 1 (xs ++ ys) ≡ drop 1 xs ++ ys
drop_one-append [] ys h = absurd (omega arith)
drop_one-append (x ∷ xs) ys h = refl

-- One sample less is the list without its oldest one.
oldest_first-pred :
    (n : ℕ) (samples : List ThroughputSample)
    → n < length samples
    → oldest_first n samples ≡ drop 1 (oldest_first (suc n) samples)
unfolding oldest_first
oldest_first-pred n [] h = absurd (omega arith)
oldest_first-pred zero (s ∷ older) h = refl
oldest_first-pred (suc n) (s ∷ older) h =
    ap (λ xs. xs ++ (s ∷ [])) (oldest_first-pred n older (omega arith))
    ∙ sym (
        drop_one-append (oldest_first (suc n) older) (s ∷ [])
          (omega (arith, length-oldest_first (suc n) older)))

-- Writing at the end of a part of a list.
set-append :
    (xs ys : List ThroughputSample) (y v : ThroughputSample)
    → set (xs ++ y ∷ ys) (length xs) v ≡ xs ++ v ∷ ys
set-append [] ys y v = refl
set-append (x ∷ xs) ys y v = ap (◌∷◌ x) (set-append xs ys y v)

pub get_elem-append :
    (xs ys : List ThroughputSample) (y : ThroughputSample)
    → get_elem? (xs ++ y ∷ ys) (length xs) ≡ some y
get_elem-append [] ys y = refl
get_elem-append (x ∷ xs) ys y = get_elem-append xs ys y

pub append_assoc : (xs ys zs : List ThroughputSample) → (xs ++ ys) ++ zs ≡ xs ++ (ys ++ zs)
append_assoc [] ys zs = refl
append_assoc (x ∷ xs) ys zs = ap (◌∷◌ x) (append_assoc xs ys zs)

pub append_nil : (xs : List ThroughputSample) → xs ++ [] ≡ xs
append_nil [] = refl
append_nil (x ∷ xs) = ap (◌∷◌ x) (append_nil xs)

-- The ring before it is full, and from then on: its parts in the order of the array are the newer
-- and the older samples.
pub record Filling (samples : List ThroughputSample) (r : Ring) : Type 0 where
  pub few : length samples < 60
  pub at : r.index ≡ length samples
  pub counted : r.count ≡ length samples
  pub unused : List ThroughputSample
  pub parts : r.history ≡ oldest_first 60 samples ++ unused
  pub left : length unused + length samples ≡ 60

pub record Full (samples : List ThroughputSample) (r : Ring) : Type 0 where
  pub many : 60 ≤ length samples
  pub counted : r.count ≡ 60
  pub newer : List ThroughputSample
  pub older : List ThroughputSample
  pub parts : r.history ≡ newer ++ older
  pub at : r.index ≡ length newer
  pub inside : length newer < 60
  pub whole : older ++ newer ≡ oldest_first 60 samples

abbrev pub Fills : List ThroughputSample → Ring → Type 0
Fills samples r = Filling samples r ⊎ Full samples r

module _ (sample : ThroughputSample) (samples : List ThroughputSample) (r : Ring) where
  filled :
      (rest : List ThroughputSample) (y : ThroughputSample)
      → length samples < 60
      → r.index ≡ length samples
      → r.history ≡ oldest_first 60 samples ++ y ∷ rest
      → set r.history r.index sample ≡ oldest_first 60 (sample ∷ samples) ++ rest
  unfolding oldest_first
  filled rest y few at parts =
      let old = oldest_first 60 samples in
      let all_old : oldest_first 59 samples ≡ old =
        oldest_first_all 59 60 samples (omega arith) (omega arith) in
      let place : r.index ≡ length old = omega (arith, at, length-oldest_first 60 samples) in
      rw (parts, place) (set-append old rest y sample ∙ sym (append_assoc old (sample ∷ []) rest))
      ∙ ap (λ xs. (xs ++ (sample ∷ [])) ++ rest) (sym all_old)

  fill :
      (rest : List ThroughputSample) (y : ThroughputSample)
      → length samples < 60
      → r.index ≡ length samples
      → r.count ≡ length samples
      → r.history ≡ oldest_first 60 samples ++ y ∷ rest
      → suc (length rest) + length samples ≡ 60
      → Fills (sample ∷ samples) (store_sample sample r)
  unfolding store_sample
  fill [] y few at counted parts left = inr (record {
    many = omega arith;
    counted = ground arith;
    newer = [];
    older = oldest_first 60 (sample ∷ samples);
    parts = filled [] y few at parts ∙ append_nil (oldest_first 60 (sample ∷ samples));
    at = omega arith;
    inside = omega arith;
    whole = append_nil (oldest_first 60 (sample ∷ samples));
  })
  fill (z ∷ rest) y few at counted parts left = inl (record {
    few = omega arith;
    at = omega arith;
    counted = ground arith;
    unused = z ∷ rest;
    parts = filled (z ∷ rest) y few at parts;
    left = omega arith;
  })

  rotate :
      (newer older : List ThroughputSample) (y : ThroughputSample)
      → 60 ≤ length samples
      → r.count ≡ 60
      → r.history ≡ newer ++ y ∷ older
      → r.index ≡ length newer
      → (y ∷ older) ++ newer ≡ oldest_first 60 samples
      → Full (sample ∷ samples) (store_sample sample r)
  unfolding store_sample oldest_first
  rotate newer older y many counted parts at whole =
      let size = length-append (y ∷ older) newer in
      let total : length ((y ∷ older) ++ newer) ≡ 60 =
        ap length whole ∙ omega (arith, length-oldest_first 60 samples) in
      let written : set r.history r.index sample ≡ newer ++ sample ∷ older =
        rw (parts, at) (set-append newer older y sample) in
      let kept : older ++ newer ≡ oldest_first 59 samples =
        ap (drop 1) whole ∙ sym (oldest_first-pred 59 samples (omega arith)) in
      go older written kept (omega (arith, size, total))
    where
      go :
          (rest : List ThroughputSample)
          → set r.history r.index sample ≡ newer ++ sample ∷ rest
          → rest ++ newer ≡ oldest_first 59 samples
          → suc (length rest) + length newer ≡ 60
          → Full (sample ∷ samples) (store_sample sample r)
      go [] written kept total = record {
        many = omega arith;
        counted = rw counted (ground arith);
        newer = [];
        older = newer ++ (sample ∷ []);
        parts = written;
        at = omega (arith, at);
        inside = omega arith;
        whole = append_nil (newer ++ (sample ∷ [])) ∙ ap (λ xs. xs ++ (sample ∷ [])) kept;
      }
      go (z ∷ rest) written kept total = record {
        many = omega arith;
        counted = rw counted (ground arith);
        newer = newer ++ (sample ∷ []);
        older = z ∷ rest;
        parts = written ∙ sym (append_assoc newer (sample ∷ []) (z ∷ rest));
        at = omega (arith, at, length-append newer (sample ∷ []));
        inside = omega (arith, length-append newer (sample ∷ []));
        whole =
            sym (append_assoc (z ∷ rest) newer (sample ∷ [])) ∙ ap (λ xs. xs ++ (sample ∷ [])) kept;
      }

Fills-store :
    (sample : ThroughputSample) (samples : List ThroughputSample) (r : Ring)
    → Fills samples r
    → Fills (sample ∷ samples) (store_sample sample r)
Fills-store sample samples r (inl h) = go (h.unused) h.parts h.left
  where
    go :
        (unused : List ThroughputSample)
        → r.history ≡ oldest_first 60 samples ++ unused
        → length unused + length samples ≡ 60
        → Fills (sample ∷ samples) (store_sample sample r)
    go [] parts left = absurd (omega (arith, left, h.few))
    go (y ∷ rest) parts left = fill sample samples r rest y h.few h.at h.counted parts left
Fills-store sample samples r (inr h) = inr (go h.older h.parts h.whole)
  where
    go :
        (older : List ThroughputSample)
        → r.history ≡ h.newer ++ older
        → older ++ h.newer ≡ oldest_first 60 samples
        → Full (sample ∷ samples) (store_sample sample r)
    go [] parts whole =
        absurd (omega (arith, ap length whole, length-oldest_first 60 samples, h.many, h.inside))
    go (y ∷ rest) parts whole =
        rotate sample samples r h.newer rest y h.many h.counted parts h.at whole

pub after_samples-Fills : (samples : List ThroughputSample) → Fills samples (after_samples samples)
unfolding after_samples
after_samples-Fills [] = inl (record {
  few = omega arith;
  at = refl;
  counted = refl;
  unused = replicate 60 zero_sample;
  parts = unfold oldest_first in refl;
  left = refl;
})
after_samples-Fills (sample ∷ older) =
    Fills-store sample older (after_samples older) (after_samples-Fills older)
