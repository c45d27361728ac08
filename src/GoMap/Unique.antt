-- ===== src/GoMap/Unique.antt =====
-- A map holds each key once; loops over a map that delete entries as they go.
use wavecontrol.Prelude.{
  Bool, [], ◌∷◌, inl, inr, Option, none, some, ◌≡◌, refl, arith, if◌then◌else◌, Bool-cases, ◌==◌,
  Comparable, nat_eq, int_eq, text_eq,
}
use wavecontrol.GoMap.{GoMap, insert, lookup, delete, lookup-insert, lookup-delete, AllValues}

abbrev pub filter_some {ℓ} : {V : Type ℓ} → (V → Bool) → Option V → Option V
filter_some p none = none
filter_some p (some v) = if p v then some v else none

module _ {ℓ} {K V : Type ℓ} ⦃c : Comparable K⦄ where
  abbrev pub IsUnique : GoMap K V → Type ℓ
  IsUnique [] = Unit
  IsUnique ((k, v) ∷ m) = (lookup k m ≡ none) × IsUnique m

  -- `for k, v := range m { if !keep(k, v) { delete(m, k) } }`
  unfoldable pub retain : (K → V → Bool) → GoMap K V → GoMap K V
  retain keep [] = []
  retain keep ((k, v) ∷ m) = let rest = retain keep m in if keep k v then (k, v) ∷ rest else rest

module _ {ℓ} {K V : Type ℓ} ⦃c : Comparable K⦄ where
  pub IsUnique-insert : (k : K) (v : V) (m : GoMap K V) → IsUnique m → IsUnique (insert k v m)
  unfolding insert
  IsUnique-insert k v [] u = (unfold lookup in refl, tt)
  IsUnique-insert k v ((p, old) ∷ m) (fresh, u) = elim (Bool-cases (p == k)) [
    | inl same ↦ rw same (fresh, u)
    | inr other ↦ rw other (
      ground (arith, lookup-insert k p v m, fresh, c.same_iff k p, c.same_iff p k),
      IsUnique-insert k v m u,
    )
  ]

  pub IsUnique-delete : (k : K) (m : GoMap K V) → IsUnique m → IsUnique (delete k m)
  unfolding delete
  IsUnique-delete k [] u = tt
  IsUnique-delete k ((p, old) ∷ m) (fresh, u) = elim (Bool-cases (p == k)) [
    | inl same ↦ rw same (IsUnique-delete k m u)
    | inr other ↦
        rw other (ground (arith, lookup-delete k p m, fresh, c.same_iff k p), IsUnique-delete k m u)
  ]

  module _ (keep : K → V → Bool) where
    lookup-retain_absent :
        (q : K) (m : GoMap K V) → lookup q m ≡ none → lookup q (retain keep m) ≡ none
    unfolding lookup retain
    lookup-retain_absent q [] e = refl
    lookup-retain_absent q ((p, v) ∷ m) e = ground (arith, lookup-retain_absent q m)

    -- A loop that deletes leaves the entries that it means to keep, and only those.
    pub lookup-retain :
        (q : K) (m : GoMap K V)
        → IsUnique m
        → lookup q (retain keep m) ≡ filter_some (keep q) (lookup q m)
    unfolding lookup retain
    lookup-retain q [] u = refl
    lookup-retain q ((p, v) ∷ m) (fresh, u) =
        ground (arith, lookup-retain q m u, lookup-retain_absent q m, fresh, c.same_iff p q)

    pub IsUnique-retain : (m : GoMap K V) → IsUnique m → IsUnique (retain keep m)
    unfolding retain
    IsUnique-retain [] u = tt
    IsUnique-retain ((p, v) ∷ m) (fresh, u) = elim (Bool-cases (keep p v)) [
      | inl kept ↦ rw kept (lookup-retain_absent p m fresh, IsUnique-retain m u)
      | inr dropped ↦ rw dropped (IsUnique-retain m u)
    ]

module _ {ℓ κ} {K V : Type ℓ} ⦃c : Comparable K⦄ (P : V → Type κ) where
  pub AllValues-retain :
      (keep : K → V → Bool) (m : GoMap K V) → AllValues P m → AllValues P (retain keep m)
  unfolding retain
  AllValues-retain keep [] a = tt
  AllValues-retain keep ((p, v) ∷ m) (h, a) = elim (Bool-cases (keep p v)) [
    | inl kept ↦ rw kept (h, AllValues-retain keep m a)
    | inr dropped ↦ rw dropped (AllValues-retain keep m a)
  ]
