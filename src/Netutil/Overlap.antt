-- ===== src/Netutil/Overlap.antt =====
-- Calls of `ResolveScheme` and `ClearSchemeCache` that overlap.
use wavecontrol.Prelude.{
  ℕ, zero, suc, ◌<◌, false, ◌&&◌, ◌||◌, List, [], ◌∷◌, Option, none, some, some-injective, ◌≡◌,
  subst, get_elem?, All, Text, text_beq,
}
use wavecontrol.GoMap.{GoMap}
use wavecontrol.Netutil.{
  Dial, probe_and_store, look, clear_scheme_cache, SchemeHint, CacheEntry, Looked, answered,
  must_probe,
}

-- The cache, and the calls of `ResolveScheme` that have found no answer in it and probe.
pub record State : Type 0 where
  pub cache : GoMap Text CacheEntry
  pub probing : List (Text × SchemeHint)

-- A call starts, at a time; one of those that probe stores its result, at a time and with the network
-- as it has found it; a host is cleared.
pub data Event : Type 0 where
  starts : ℕ → Text → SchemeHint → Event
  stores : Dial → ℕ → ℕ → Event
  clears : Text → Event

unfoldable pub drop_at {ℓ} : {A : Type ℓ} → ℕ → List A → List A
drop_at i [] = []
drop_at zero (x ∷ l) = l
drop_at (suc i) (x ∷ l) = x ∷ drop_at i l

abbrev pub waits : Text → SchemeHint → Looked → List (Text × SchemeHint) → List (Text × SchemeHint)
waits host hint (answered scheme) l = l
waits host hint must_probe l = (host, hint) ∷ l

abbrev pub started : Text → SchemeHint → GoMap Text CacheEntry × Looked → State → State
started host hint (cache, looked) s = record {
  cache = cache;
  probing = waits host hint looked s.probing;
}

abbrev pub stored : Dial → ℕ → ℕ → Option (Text × SchemeHint) → State → State
stored dial now i none s = s
stored dial now i (some (host, hint)) s = record {
  cache = (probe_and_store dial now host hint s.cache).0;
  probing = drop_at i s.probing;
}

unfoldable pub step : Event → State → State
unfolding look drop_at clear_scheme_cache
step (starts now host hint) s = started host hint (look now host hint s.cache) s
step (stores dial now i) s = stored dial now i (get_elem? s.probing i) s
step (clears host) s = record s { cache = clear_scheme_cache host s.cache }

unfoldable pub run : List Event → State → State
unfolding step
run [] s = s
run (e ∷ es) s = run es (step e s)

-- A call that starts is before the time and forces no scheme on the host, and the host is not
-- cleared. Nothing is asked of the moments at which calls store.
abbrev pub Leaves : Text → ℕ → Event → Type 0
Leaves host until (starts now other hint) =
    (now < until) × ((text_beq other host && (hint.tls_pinned || hint.prefer_https)) ≡ false)
Leaves host until (stores dial now i) = Unit
Leaves host until (clears other) = text_beq other host ≡ false

-- No call probes the host.
abbrev pub Apart : Text → List (Text × SchemeHint) → Type 0
Apart host l = All (λ c. text_beq c.0 host ≡ false) l

pub All-drop_at {ℓ κ} :
    {A : Type ℓ} (P : A → Type κ) (i : ℕ) (l : List A) → All P l → All P (drop_at i l)
unfolding drop_at
All-drop_at P i [] a = tt
All-drop_at P zero (x ∷ l) a = a.1
All-drop_at P (suc i) (x ∷ l) a = (a.0, All-drop_at P i l a.1)

pub All-get_elem? {ℓ κ} :
    {A : Type ℓ} (P : A → Type κ) (l : List A) (i : ℕ) (x : A)
    → All P l
    → get_elem? l i ≡ some x
    → P x
All-get_elem? P [] i x a h = absurd cc
All-get_elem? P (y ∷ l) zero x a h = subst P (some-injective _ _ h) a.0
All-get_elem? P (y ∷ l) (suc i) x a h = All-get_elem? P l i x a.1 h
