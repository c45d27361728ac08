-- ===== src/Stats/Stability/Windows.antt =====
-- What the counters of a device count.
use wavecontrol.Prelude.{
  ℕ, ◌+◌, ◌≤◌, Bool, true, false, ◌&&◌, not, List, [], ◌∷◌, ◌++◌, inl, inr, Option, none, some, ◌≡◌,
  refl, sym, ap, ap₂, ◌∙◌, subst, arith, if◌then◌else◌, Bool-cases, length, ◌==◌, Text,
  text_beq_iff, ltb_ℤ, ℤ, pos, nat_eq, int_eq, text_eq,
}
use wavecontrol.GoMap.{lookup, lookup-insert}
use wavecontrol.Stats.Device.{status_online, normalize_status}
use wavecontrol.Stats.Index.{Index}
use wavecontrol.Stats.Stability.{
  hour, day, prune, count_after, append_if, first_seen, track, Stability, stability_key,
  track_or_new, track_stability_status, StabilityStats,
}

-- A call of `TrackStabilityStatus`, with the index at its time.
pub record Report : Type 0 where
  pub time : ℕ
  pub address : Text
  pub name : Text
  pub state : Text
  pub up : ℤ
  pub found_in : Index

abbrev pub is_up : Report → Bool
is_up p = normalize_status p.state == status_online

-- The reports of a list, the newest first, that are about one key.
unfoldable pub about : Text → List Report → List Report
about key [] = []
about key (p ∷ older) =
    let rest = about key older in
    if stability_key p.found_in p.address == key then p ∷ rest else rest

unfoldable pub after_reports : List Report → Stability
after_reports [] = []
after_reports (p ∷ older) =
    track_stability_status p.time p.address p.name p.state p.up p.found_in (after_reports older)

-- The times at which the device left the online state, and at which it had restarted.
pub flaps : List Report → List ℕ
flaps [] = []
flaps (p ∷ []) = []
flaps (p ∷ q ∷ older) =
    let rest = flaps (q ∷ older) in if is_up q && not (is_up p) then p.time ∷ rest else rest

abbrev pub restarted : Report → Report → Bool
restarted p q = is_up p && is_up q && ltb_ℤ (pos 0) p.up && ltb_ℤ (pos 0) q.up && ltb_ℤ p.up q.up

pub reboots : List Report → List ℕ
reboots [] = []
reboots (p ∷ []) = []
reboots (p ∷ q ∷ older) =
    let rest = reboots (q ∷ older) in if restarted p q then p.time ∷ rest else rest

-- The clock does not go back from an older report to a newer one.
abbrev pub InOrder : List Report → Type 0
InOrder [] = Unit
InOrder (p ∷ []) = Unit
InOrder (p ∷ q ∷ older) = (q.time ≤ p.time) × InOrder (q ∷ older)

count-append :
    (window now : ℕ) (xs ys : List ℕ)
    → count_after window now (xs ++ ys) ≡ count_after window now xs + count_after window now ys
unfolding count_after
count-append window now [] ys = omega arith
count-append window now (x ∷ xs) ys = ground (arith, count-append window now xs ys)

-- What a window has dropped is in no window of the same or a smaller length later.
count-prune :
    (window now later : ℕ) (xs : List ℕ)
    → window ≤ day
    → now ≤ later
    → count_after window later (prune day now xs) ≡ count_after window later xs
unfolding count_after prune
count-prune window now later [] h k = refl
count-prune window now later (x ∷ xs) h k = ground (arith, count-prune window now later xs h k)

length-prune :
    (window now : ℕ) (xs : List ℕ) → length (prune window now xs) ≡ count_after window now xs
unfolding count_after prune
length-prune window now [] = refl
length-prune window now (x ∷ xs) = ground (arith, length-prune window now xs)

-- The counts of appended times are those of times put in front.
count-append_if :
    (c : Bool) (window now t : ℕ) (xs ys : List ℕ)
    → count_after window now xs ≡ count_after window now ys
    → count_after window now (append_if c t xs) ≡ count_after window now (if c then t ∷ ys else ys)
unfolding count_after
count-append_if true window now t xs ys e = ground (arith, e, count-append window now xs (t ∷ []))
count-append_if false window now t xs ys e = e

-- The entry of a device behind its reports, of which the first is the newest.
unfoldable entry : Report → List Report → StabilityStats
entry p [] = first_seen p.time p.address p.name (is_up p) p.up
entry p (q ∷ older) = track p.time p.address p.name (is_up p) p.up (entry q older)

abbrev entry_of : List Report → Option StabilityStats
entry_of [] = none
entry_of (p ∷ older) = some (entry p older)

entry-newest :
    (p : Report) (older : List Report)
    → ((entry p older).last_online ≡ is_up p)
      × ((entry p older).last_uptime ≡ p.up)
      × ((entry p older).last_seen ≡ p.time)
unfolding entry track
entry-newest p [] = (refl, refl, refl)
entry-newest p (q ∷ older) = (refl, refl, refl)

module _ (window : ℕ) (short : window ≤ day) where
  flap_times-flaps :
      (later : ℕ) (p : Report) (older : List Report)
      → InOrder (p ∷ older)
      → p.time ≤ later
      → count_after window later (entry p older).flap_times
        ≡ count_after window later (flaps (p ∷ older))
  unfolding entry track flaps
  flap_times-flaps later p [] o h = refl
  flap_times-flaps later p (q ∷ older) o h =
      let st = entry q older in
      count-prune window p.time later
        (append_if (st.last_online && not (is_up p)) p.time st.flap_times) short h
      ∙ ap (λ b. count_after window later (append_if (b && not (is_up p)) p.time st.flap_times))
          ((entry-newest q older).0)
      ∙ count-append_if (is_up q && not (is_up p)) window later p.time st.flap_times
          (flaps (q ∷ older)) (flap_times-flaps later q older o.1 (omega (arith, o.0)))

  reboot_times-reboots :
      (later : ℕ) (p : Report) (older : List Report)
      → InOrder (p ∷ older)
      → p.time ≤ later
      → count_after window later (entry p older).reboot_times
        ≡ count_after window later (reboots (p ∷ older))
  unfolding entry track reboots
  reboot_times-reboots later p [] o h = refl
  reboot_times-reboots later p (q ∷ older) o h =
      let st = entry q older in
      let up_to = λ (b : Bool) (u : ℤ).
        is_up p && b && ltb_ℤ (pos 0) p.up && ltb_ℤ (pos 0) u && ltb_ℤ p.up u in
      count-prune window p.time later
        (append_if (up_to st.last_online st.last_uptime) p.time st.reboot_times) short h
      ∙ ap₂ (λ b u. count_after window later (append_if (up_to b u) p.time st.reboot_times))
          ((entry-newest q older).0) ((entry-newest q older).1)
      ∙ count-append_if (restarted p q) window later p.time st.reboot_times (reboots (q ∷ older))
          (reboot_times-reboots later q older o.1 (omega (arith, o.0)))

track_or_new-entry_of :
    (p : Report) (own : List Report)
    → track_or_new p.time p.address p.name (is_up p) p.up (entry_of own) ≡ entry p own
unfolding entry
track_or_new-entry_of p [] = refl
track_or_new-entry_of p (q ∷ older) = refl

lookup-after_reports :
    (key : Text) (reports : List Report)
    → lookup key (after_reports reports) ≡ entry_of (about key reports)
unfolding after_reports track_stability_status about
lookup-after_reports key [] = unfold lookup in refl
lookup-after_reports key (p ∷ older) =
    let own = stability_key p.found_in p.address in
    let m = after_reports older in
    let new = λ (before : Option StabilityStats).
      track_or_new p.time p.address p.name (is_up p) p.up before in
    lookup-insert own key (new (lookup own m)) m ∙ (elim (Bool-cases (own == key)) [
      | inl same ↦
          let e = (text_beq_iff own key).0 same in
          rw same (
            ap (λ k. some (new (lookup k m))) e
            ∙ ap (λ o. some (new o)) (lookup-after_reports key older)
            ∙ ap some (track_or_new-entry_of p (about key older)))
      | inr other ↦ rw other (lookup-after_reports key older)
    ])

-- The counters of an entry, as of the last report about its key: they are the numbers of changes
-- from online to another status, and of restarts, in the last hour and in the last day.
pub record CountsWindows (reports : List Report) (st : StabilityStats) : Type 0 where
  pub flaps_hour : st.flaps_1h ≡ count_after hour st.last_seen (flaps reports)
  pub flaps_day : st.flaps_24h ≡ count_after day st.last_seen (flaps reports)
  pub reboots_hour : st.reboots_1h ≡ count_after hour st.last_seen (reboots reports)
  pub reboots_day : st.reboots_24h ≡ count_after day st.last_seen (reboots reports)

entry-CountsWindows :
    (p : Report) (older : List Report)
    → InOrder (p ∷ older)
    → CountsWindows (p ∷ older) (entry p older)
entry-CountsWindows p [] o =
    unfold entry flaps reboots count_after in
    record { flaps_hour = refl; flaps_day = refl; reboots_hour = refl; reboots_day = refl }
entry-CountsWindows p (q ∷ older) o =
    unfold entry track in
    record {
      flaps_hour = flap_times-flaps hour (omega arith) p.time p (q ∷ older) o (omega arith);
      flaps_day =
          length-prune day p.time _
          ∙ sym (count-prune day p.time p.time _ (omega arith) (omega arith))
          ∙ flap_times-flaps day (omega arith) p.time p (q ∷ older) o (omega arith);
      reboots_hour = reboot_times-reboots hour (omega arith) p.time p (q ∷ older) o (omega arith);
      reboots_day =
          length-prune day p.time _
          ∙ sym (count-prune day p.time p.time _ (omega arith) (omega arith))
          ∙ reboot_times-reboots day (omega arith) p.time p (q ∷ older) o (omega arith);
    }

-- After reports on any devices, under addresses that may move between them, the counters of an entry
-- are right as of its last report, if the reports on it are in the order of time.
pub track_stability_status-CountsWindows :
    (key : Text) (reports : List Report) (st : StabilityStats)
    → InOrder (about key reports)
    → lookup key (after_reports reports) ≡ some st
    → CountsWindows (about key reports) st
track_stability_status-CountsWindows key reports st ordered found =
    go (about key reports) ordered (sym (lookup-after_reports key reports) ∙ found)
  where
    go : (own : List Report) → InOrder own → entry_of own ≡ some st → CountsWindows own st
    go [] o e = absurd cc
    go (p ∷ older) o e =
        let same : entry p older ≡ st = ground (arith, e) in
        subst (CountsWindows (p ∷ older)) same (entry-CountsWindows p older o)
