-- ===== src/BulkOps/Match/Fold.antt =====
-- The search is `strings.Contains` on texts in small letters.
use wavecontrol.Prelude.{
  ℕ, zero, suc, ◌+◌, ◌-◌, ◌≤◌, ◌<◌, Bool, true, false, [], ◌∷◌, inl, inr, ◌≡◌, refl, sym, ap, ◌∙◌,
  arith, ltb, leb, if◌then◌else◌, nat_beq_iff, Bool-cases, tests, length, take, drop, length-take,
  ◌==◌, Text, text_beq_iff, to_lower, has_prefix, contains, nat_eq, int_eq, text_eq,
}
use wavecontrol.BulkOps.Match.{same_folded, matches_lower, scan, contains_lower, contains_folded}

same_folded-has_prefix :
    (t p : Text)
    → length p ≤ length t
    → same_folded (take (length p) t) p ≡ has_prefix (to_lower t) (to_lower p)
unfolding same_folded has_prefix to_lower
same_folded-has_prefix t [] h = refl
same_folded-has_prefix [] (y ∷ p) h = absurd (omega arith)
same_folded-has_prefix (x ∷ t) (y ∷ p) h = ground (arith, same_folded-has_prefix t p)

matches_lower-has_prefix :
    (t p : Text)
    → length p ≤ length t
    → matches_lower (take (length p) t) p ≡ has_prefix (to_lower t) (to_lower p)
unfolding matches_lower
matches_lower-has_prefix t p h =
    rw (length-take (length p) t h)
      (rw ((nat_beq_iff (length p) (length p)).1 refl) (same_folded-has_prefix t p h))

has_prefix_short : (t p : Text) → length t < length p → has_prefix t p ≡ false
unfolding has_prefix
has_prefix_short t [] h = absurd (omega arith)
has_prefix_short [] (y ∷ p) h = refl
has_prefix_short (x ∷ t) (y ∷ p) h = ground (arith, has_prefix_short t p)

has_prefix_self : (t : Text) → has_prefix t t ≡ true
unfolding has_prefix
has_prefix_self [] = refl
has_prefix_self (c ∷ t) = ground (arith, has_prefix_self t)

contains_short : (t p : Text) → length t < length p → contains t p ≡ false
unfolding contains
contains_short [] p h = has_prefix_short [] p h
contains_short (x ∷ t) p h = rw (has_prefix_short (x ∷ t) p h) (contains_short t p (omega arith))

length-to_lower : (t : Text) → length (to_lower t) ≡ length t
unfolding to_lower
length-to_lower [] = refl
length-to_lower (x ∷ t) = ap suc (length-to_lower t)

drop_next : (i : ℕ) (s : Text) (c : ℕ) (t : Text) → drop i s ≡ c ∷ t → drop (suc i) s ≡ t
drop_next zero [] c t e = absurd cc
drop_next zero (x ∷ s) c t e = ground arith
drop_next (suc i) [] c t e = absurd cc
drop_next (suc i) (x ∷ s) c t e = drop_next i s c t e

scan_end :
    (p : Text) (rest : Bool)
    → length p ≡ 0
    → (if matches_lower (take (length p) []) p then true else rest)
      ≡ contains (to_lower []) (to_lower p)
unfolding matches_lower same_folded contains has_prefix to_lower
scan_end [] rest h = refl
scan_end (y ∷ p) rest h = absurd (omega arith)

contains-cons :
    (c : ℕ) (t q : Text)
    → (if has_prefix (to_lower (c ∷ t)) q then true else contains (to_lower t) q)
      ≡ contains (to_lower (c ∷ t)) q
unfolding contains to_lower
contains-cons c t q = ground arith

contains_self : (t : Text) → contains t t ≡ true
unfolding contains
contains_self [] = unfold has_prefix in refl
contains_self (c ∷ t) = rw (has_prefix_self (c ∷ t))

scan-contains :
    (s p : Text) (i count : ℕ) (t : Text)
    → drop i s ≡ t
    → count + length p ≡ length t + 1
    → scan s p i count ≡ contains (to_lower t) (to_lower p)
unfolding scan
scan-contains s p i zero t e n =
    sym (
      contains_short (to_lower t) (to_lower p)
        (omega (arith, length-to_lower t, length-to_lower p)))
scan-contains s p i (suc count) [] e n = rw e (scan_end p (scan s p (suc i) count) (omega arith))
scan-contains s p i (suc count) (c ∷ t) e n =
    let here = matches_lower-has_prefix (c ∷ t) p (omega arith) in
    rw e (
      rw here (
        ap (λ b. if has_prefix (to_lower (c ∷ t)) (to_lower p) then true else b)
          (scan-contains s p (suc i) count t (drop_next i s c t e) (omega arith))
        ∙ contains-cons c t (to_lower p)))

nonempty-differ :
    (s substr : Text)
    → leb (length substr) (length s) ≡ true
    → (s == substr) ≡ false
    → ltb 0 (length s) ≡ true
nonempty-differ [] [] h d = ground (arith, d, text_beq_iff [] [])
nonempty-differ [] (y ∷ p) h d = absurd (omega tests)
nonempty-differ (x ∷ s) p h d = ground arith

-- The search finds a pattern exactly if it stands in the text where both are in small letters.
pub contains_folded-to_lower :
    (s substr : Text) → contains_folded s substr ≡ contains (to_lower s) (to_lower substr)
unfolding contains_folded contains_lower
contains_folded-to_lower s substr = elim (Bool-cases (leb (length substr) (length s))) [
  | inr longer ↦ rw longer (
      sym (
        contains_short (to_lower s) (to_lower substr)
          (omega (tests, length-to_lower s, length-to_lower substr))))
  | inl fits ↦ elim (Bool-cases (s == substr)) [
    | inl same ↦
        let e = (text_beq_iff s substr).0 same in
        rw (fits, same) (rw e (sym (contains_self (to_lower substr))))
    | inr differ ↦
        let some_left : ltb 0 (length s) ≡ true = nonempty-differ s substr fits differ in
        rw (fits, differ, some_left)
          (scan-contains s substr 0 (length s + 1 - length substr) s refl (omega tests))
  ]
]
