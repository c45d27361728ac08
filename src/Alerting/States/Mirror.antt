-- ===== src/Alerting/States/Mirror.antt =====
-- Maps of states that agree key by key, and what writes of one key do to them.
use wavecontrol.Prelude.{
  true, false, [], ◌∷◌, inl, inr, Option, none, some, ◌≡◌, refl, sym, ◌∙◌, arith, if◌then◌else◌,
  Bool-cases, nat_eq, int_eq, text_eq,
}
use wavecontrol.GoMap.{GoMap, insert, lookup, delete, lookup-insert, lookup-delete}
use wavecontrol.Alerting.States.{Key, same_key, same_key_iff, adjust, AlertState, World, key_eq}

abbrev pub over {ℓ} : {A : Type ℓ} → (A → A) → Option A → Option A
over f none = none
over f (some a) = some (f a)

module _ {V : Type 0} where
  -- What a state in memory needs of the row under its key.
  abbrev pub Matches : Option (AlertState V) → Option (AlertState V) → Type 0
  Matches none r = Unit
  Matches (some s) none = true ≡ false
  Matches (some s) (some r) =
      (s.first_triggered_at ≡ r.first_triggered_at) × (s.notified ≡ r.notified)

  abbrev pub AreMirrored : GoMap Key (AlertState V) → GoMap Key (AlertState V) → Type 0
  AreMirrored states rows = (k : Key) → Matches (lookup k states) (lookup k rows)

  -- What is in memory is in the table too: a restart, which reads the table, loses nothing.
  abbrev pub Mirrors : World V → Type 0
  Mirrors w = AreMirrored w.states w.rows

  pub lookup-adjust :
      (k q : Key) (f : AlertState V → AlertState V) (m : GoMap Key (AlertState V))
      → lookup q (adjust k f m) ≡ (if same_key k q then over f (lookup q m) else lookup q m)
  unfolding lookup adjust
  lookup-adjust k q f [] = elim (Bool-cases (same_key k q)) [ inl e ↦ rw e | inr e ↦ rw e ]
  lookup-adjust k q f ((p, s) ∷ m) =
      ground (arith, lookup-adjust k q f m, same_key_iff p k, same_key_iff p q, same_key_iff k q)

  abbrev pub IsWrite :
      Key → Option (AlertState V) → GoMap Key (AlertState V) → GoMap Key (AlertState V) → Type 0
  IsWrite k x before after =
      (q : Key) → lookup q after ≡ (if same_key k q then x else lookup q before)

  pub Mirrors-write :
      (k : Key) (x y : Option (AlertState V)) (states rows states' rows' : GoMap Key (AlertState V))
      → IsWrite k x states states'
      → IsWrite k y rows rows'
      → Matches x y
      → AreMirrored states rows
      → AreMirrored states' rows'
  Mirrors-write k x y states rows states' rows' hs hr m mirrors q =
      elim (Bool-cases (same_key k q)) [
        | inl e ↦ rw (hs q, hr q, e) m
        | inr e ↦ rw (hs q, hr q, e) (mirrors q)
      ]

  pub insert-IsWrite :
      (k : Key) (s : AlertState V) (m : GoMap Key (AlertState V))
      → IsWrite k (some s) m (insert k s m)
  insert-IsWrite k s m q = lookup-insert k q s m

  pub delete-IsWrite : (k : Key) (m : GoMap Key (AlertState V)) → IsWrite k none m (delete k m)
  delete-IsWrite k m q = lookup-delete k q m

  pub adjust-IsWrite :
      (k : Key) (f : AlertState V → AlertState V) (m : GoMap Key (AlertState V))
      → IsWrite k (over f (lookup k m)) m (adjust k f m)
  adjust-IsWrite k f m q = elim (Bool-cases (same_key k q)) [
    | inl e ↦
        (let same : k ≡ q = (same_key_iff k q).0 e in lookup-adjust k q f m ∙ rw (e, same) refl)
    | inr e ↦ lookup-adjust k q f m ∙ rw e refl
  ]

  pub keep-IsWrite : (k : Key) (m : GoMap Key (AlertState V)) → IsWrite k (lookup k m) m m
  keep-IsWrite k m q = elim (Bool-cases (same_key k q)) [
    | inl e ↦ (let same : k ≡ q = (same_key_iff k q).0 e in rw (e, same) refl)
    | inr e ↦ rw e refl
  ]

  pub Matches-over :
      (f g : AlertState V → AlertState V) (x y : Option (AlertState V))
      → ((s r : AlertState V)
          → s.first_triggered_at ≡ r.first_triggered_at
          → s.notified ≡ r.notified
          → Matches (some (f s)) (some (g r)))
      → Matches x y
      → Matches (over f x) (over g y)
  Matches-over f g none y h m = tt
  Matches-over f g (some s) none h m = m
  Matches-over f g (some s) (some r) h (a, b) = h s r a b

  pub Matches-seen :
      (s t : AlertState V) (o : Option (AlertState V))
      → t.first_triggered_at ≡ s.first_triggered_at
      → t.notified ≡ s.notified
      → Matches (some s) o
      → Matches (some t) o
  Matches-seen s t none a b m = m
  Matches-seen s t (some r) a b (c, d) = (a ∙ c, b ∙ d)

  pub Matches-see :
      (see : AlertState V → AlertState V) (s : AlertState V) (o : Option (AlertState V))
      → ((r : AlertState V) → (see r).first_triggered_at ≡ r.first_triggered_at)
      → ((r : AlertState V) → (see r).notified ≡ r.notified)
      → Matches (some s) o
      → Matches (some (see s)) (over see o)
  Matches-see see s none a b m = m
  Matches-see see s (some r) a b (c, d) = (a s ∙ c ∙ sym (a r), b s ∙ d ∙ sym (b r))

  -- A write that is undone, and one that was made before.
  pub twice-IsWrite :
      (k : Key) (s : AlertState V) (m : GoMap Key (AlertState V))
      → IsWrite k none m (delete k (insert k s m))
  twice-IsWrite k s m q = elim (Bool-cases (same_key k q)) [
    | inl e ↦ lookup-delete k q (insert k s m) ∙ rw e refl
    | inr e ↦ lookup-delete k q (insert k s m) ∙ rw (e, lookup-insert k q s m) (rw e refl)
  ]

  pub again-IsWrite :
      (k : Key) (s : AlertState V) (m : GoMap Key (AlertState V))
      → IsWrite k (some s) (insert k s m) (insert k s m)
  again-IsWrite k s m q = elim (Bool-cases (same_key k q)) [
    | inl e ↦ lookup-insert k q s m ∙ rw e refl
    | inr e ↦ rw e refl
  ]
