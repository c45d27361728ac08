-- ===== src/Stats/Throughput/Reading.antt =====
-- What the loop over the ring reads.
use wavecontrol.Prelude.{
  ℕ, zero, suc, ◌+◌, ◌%◌, ◌≤◌, true, List, [], ◌∷◌, ◌++◌, map, inl, inr, some, ◌≡◌, refl, sym, ap,
  ap₂, ◌∙◌, arith, ltb, nat_beq, Bool-cases, length, get_elem?, take, length-append, take-append,
}
use wavecontrol.Stats.Throughput.{
  new_ring, store_sample, sample_of, record_throughput_sample, copy_to, read_from,
  get_throughput_history, ThroughputSample, DeviceRates, Ring,
}
use wavecontrol.Stats.Throughput.Newest.{
  oldest_first, after_samples, length-oldest_first, get_elem-append, append_assoc, append_nil,
  after_samples-Fills, Filling, Full,
}

read_step :
    (h : List ThroughputSample) (i n : ℕ)
    → read_from h i (suc n) ≡ copy_to (read_from h (suc i) n) (get_elem? h (i % 60))
unfolding read_from
read_step h i n = refl

-- The loop reads a part of the array that lies ahead of it.
read_part :
    (h : List ThroughputSample) (xs pre post : List ThroughputSample) (i m : ℕ)
    → h ≡ pre ++ (xs ++ post)
    → i ≡ length pre
    → length pre + length xs ≤ 60
    → read_from h i (length xs + m) ≡ xs ++ read_from h (i + length xs) m
unfolding read_from
read_part h [] pre post i m e at fits = ap₂ (λ j k. read_from h j k) (omega arith) (omega arith)
read_part h (x ∷ xs) pre post i m e at fits =
    let here : get_elem? h (i % 60) ≡ some x =
      (let j : i % 60 ≡ length pre = omega (arith, at, fits) in
        rw (j, e) (get_elem-append pre (xs ++ post) x)) in
    let next =
      read_part h xs (pre ++ (x ∷ [])) post (suc i) m
        (e ∙ sym (append_assoc pre (x ∷ []) (xs ++ post)))
        (omega (arith, at, length-append pre (x ∷ [])))
        (omega (arith, fits, length-append pre (x ∷ []))) in
    let count : suc (length xs) + m ≡ suc (length xs + m) = omega arith in
    let place : suc i + length xs ≡ i + suc (length xs) = omega arith in
    ap (read_from h i) count
    ∙ read_step h i (length xs + m)
    ∙ ap (copy_to (read_from h (suc i) (length xs + m))) here
    ∙ ap (◌∷◌ x) (next ∙ ap (λ k. xs ++ read_from h k m) place)

read_wrap : (h : List ThroughputSample) (n i j : ℕ) → j ≡ 60 + i → read_from h j n ≡ read_from h i n
unfolding read_from
read_wrap h zero i j e = refl
read_wrap h (suc n) i j e =
    let same : j % 60 ≡ i % 60 = omega arith in
    read_step h j n
    ∙ ap₂ (λ rest k. copy_to rest (get_elem? h k)) (read_wrap h n (suc i) (suc j) (omega arith))
        same
    ∙ sym (read_step h i n)

read_nothing : (h : List ThroughputSample) (i : ℕ) → read_from h i 0 ≡ []
unfolding read_from
read_nothing h i = refl

-- A full ring is read in two parts, from the oldest sample on.
read_ring :
    (h newer older : List ThroughputSample)
    → h ≡ newer ++ older
    → length older + length newer ≡ 60
    → read_from h (length newer) 60 ≡ older ++ newer
read_ring h newer older e size =
    let ahead =
      read_part h older newer [] (length newer) (length newer)
        (e ∙ ap (λ xs. newer ++ xs) (sym (append_nil older))) refl (omega arith) in
    let behind = read_part h newer [] older 0 0 e refl (omega arith) in
    let n = length newer in
    ap (read_from h n) (sym size)
    ∙ ahead
    ∙ ap (λ xs. older ++ xs)
        (read_wrap h n 0 (n + length older) (omega arith)
          ∙ ap (read_from h 0) (omega arith)
          ∙ behind
          ∙ ap (λ xs. newer ++ xs) (read_nothing h (0 + n))
          ∙ append_nil newer)

module _ (samples : List ThroughputSample) (r : Ring) where
  history-Filling : Filling samples r → get_throughput_history r ≡ oldest_first 60 samples
  unfolding get_throughput_history
  history-Filling h =
      let all_shown : take r.count r.history ≡ oldest_first 60 samples =
        (let e : r.count ≡ length (oldest_first 60 samples) =
            omega (arith, h.counted, h.few, length-oldest_first 60 samples) in
          rw (e, h.parts) (take-append (oldest_first 60 samples) h.unused)) in
      elim (Bool-cases (nat_beq r.count 0)) [
        | inl none_yet ↦
            (let zero_count : 0 ≡ r.count = ground (arith, none_yet) in
              rw none_yet (ap (λ k. take k r.history) zero_count ∙ all_shown))
        | inr some_yet ↦
            (let open_end : ltb r.count 60 ≡ true = ground (arith, h.counted, h.few) in
              rw (some_yet, open_end) all_shown)
      ]

  history-Full : Full samples r → get_throughput_history r ≡ oldest_first 60 samples
  unfolding get_throughput_history
  history-Full h =
      let size : length h.older + length h.newer ≡ 60 = omega (
        arith,
        ap length h.whole,
        length-append h.older h.newer,
        length-oldest_first 60 samples,
        h.many,
      ) in
      rw (h.counted, h.at) (read_ring r.history h.newer h.older h.parts size ∙ h.whole)

-- The ring after samples taken at the given times, the latest of them first.
unfoldable pub after_polls : List (ℕ × List DeviceRates) → Ring
after_polls [] = new_ring
after_polls (poll ∷ older) = record_throughput_sample poll (after_polls older)

after_polls-after_samples :
    (polls : List (ℕ × List DeviceRates)) → after_polls polls ≡ after_samples (map sample_of polls)
unfolding after_polls after_samples record_throughput_sample
after_polls-after_samples [] = refl
after_polls-after_samples (poll ∷ older) =
    ap (store_sample (sample_of poll)) (after_polls-after_samples older)

-- After any number of recordings, the history shows the samples of the latest sixty of them, or of
-- all where there are fewer, the earliest first.
pub get_throughput_history-oldest_first :
    (polls : List (ℕ × List DeviceRates))
    → get_throughput_history (after_polls polls) ≡ oldest_first 60 (map sample_of polls)
get_throughput_history-oldest_first polls =
    let samples = map sample_of polls in
    ap get_throughput_history (after_polls-after_samples polls)
    ∙ (elim (after_samples-Fills samples) [
      | inl h ↦ history-Filling samples (after_samples samples) h
      | inr h ↦ history-Full samples (after_samples samples) h
    ])
