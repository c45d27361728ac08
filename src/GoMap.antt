-- ===== src/GoMap.antt =====
-- Go's `map[K]V` as an association list behind its laws. The order of entries stands for the
-- unspecified order in which `range` visits a map.
pub mod Unique
use wavecontrol.Prelude.{
  true, List, [], ◌∷◌, inl, inr, Option, none, some, ◌≡◌, refl, subst, arith, if◌then◌else◌,
  Bool-cases, All, ◌==◌, Comparable, nat_eq, int_eq, text_eq,
}

abbrev pub GoMap {ℓ} : Type ℓ → Type ℓ → Type ℓ
GoMap K V = List (K × V)

pub key_refl {ℓ} : {K : Type ℓ} ⦃c : Comparable K⦄ (k : K) → (k == k) ≡ true
key_refl ⦃c⦄ k = (c.same_iff k k).1 refl

module _ {ℓ} {K V : Type ℓ} ⦃c : Comparable K⦄ where
  -- `m[k] = v`
  unfoldable pub insert : K → V → GoMap K V → GoMap K V
  insert k v [] = (k, v) ∷ []
  insert k v ((j, w) ∷ m) = let rest = insert k v m in if j == k then (j, v) ∷ m else (j, w) ∷ rest

  -- `v, ok := m[k]`
  unfoldable pub lookup : K → GoMap K V → Option V
  lookup q [] = none
  lookup q ((p, old) ∷ m) = if p == q then some old else lookup q m

  -- `delete(m, k)`
  unfoldable pub delete : K → GoMap K V → GoMap K V
  delete k [] = []
  delete k ((j, v) ∷ m) = let rest = delete k m in if j == k then rest else (j, v) ∷ rest

  -- A written key reads back, and no other key is touched.
  pub lookup-insert :
      (k q : K) (new : V) (m : GoMap K V)
      → lookup q (insert k new m) ≡ (if k == q then some new else lookup q m)
  unfolding insert lookup
  lookup-insert k q new [] = refl
  lookup-insert k q new ((p, old) ∷ m) =
      ground (arith, c.same_iff p q, c.same_iff k q, c.same_iff p k, lookup-insert k q new m)

  -- A deleted key reads as absent.
  pub lookup-delete :
      (k q : K) (m : GoMap K V) → lookup q (delete k m) ≡ (if k == q then none else lookup q m)
  unfolding delete lookup
  lookup-delete k q [] = ground arith
  lookup-delete k q ((p, old) ∷ m) =
      ground (arith, c.same_iff p q, c.same_iff k q, c.same_iff p k, lookup-delete k q m)

  pub lookup-nil : (k : K) → lookup k [] ≡ none
  unfolding lookup
  lookup-nil k = refl

pub ruleset map_laws = (lookup-nil, lookup-delete, lookup-insert)

-- What holds of every value of a map.
abbrev pub AllValues {ℓ κ} : {K V : Type ℓ} → (V → Type κ) → GoMap K V → Type κ
AllValues P = All (λ e. P e.1)

module _ {ℓ κ} {K V : Type ℓ} ⦃c : Comparable K⦄ (P : V → Type κ) where
  pub AllValues-insert :
      (k : K) (v : V) (m : GoMap K V) → P v → AllValues P m → AllValues P (insert k v m)
  unfolding insert
  AllValues-insert k v [] h a = (h, tt)
  AllValues-insert k v ((j, w) ∷ m) h a = elim (Bool-cases (j == k)) [
    | inl same ↦ rw same (h, a.1)
    | inr other ↦ rw other (a.0, AllValues-insert k v m h a.1)
  ]

  pub AllValues-delete : (k : K) (m : GoMap K V) → AllValues P m → AllValues P (delete k m)
  unfolding delete
  AllValues-delete k [] a = tt
  AllValues-delete k ((j, w) ∷ m) a = elim (Bool-cases (j == k)) [
    | inl same ↦ rw same (AllValues-delete k m a.1)
    | inr other ↦ rw other (a.0, AllValues-delete k m a.1)
  ]

  pub AllValues-lookup : (k : K) (m : GoMap K V) (v : V) → lookup k m ≡ some v → AllValues P m → P v
  unfolding lookup
  AllValues-lookup k [] v h a = cc
  AllValues-lookup k ((j, w) ∷ m) v h a = elim (Bool-cases (j == k)) [
    | inl same ↦ (let found : w ≡ v = ground arith in subst P found a.0)
    | inr other ↦ AllValues-lookup k m v (rw other at h) a.1
  ]
