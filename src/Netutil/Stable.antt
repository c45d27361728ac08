-- ===== src/Netutil/Stable.antt =====
-- How long an answer of `ResolveScheme` stays, in calls that overlap.
use wavecontrol.Prelude.{
  ℕ, ◌+◌, ◌≤◌, ◌<◌, true, false, ◌||◌, List, [], ◌∷◌, inl, inr, Option, none, some, ◌≡◌, refl, sym,
  ◌∙◌, subst, arith, ltb, Bool-cases, get_elem?, All, Text, text_beq, text_beq_iff, is_empty, ℤ,
  nat_eq, int_eq, text_eq,
}
use wavecontrol.GoMap.{GoMap, key_refl, insert, lookup, lookup-insert, lookup-delete}
use wavecontrol.Netutil.{
  https, http, Dial, dial_tcp, probe_scheme, scheme_cache_ttl, store, probe_timeout, look,
  clear_scheme_cache, SchemeHint, CacheEntry, Looked, answered, must_probe,
}
use wavecontrol.Netutil.Overlap.{
  drop_at, waits, started, stored, step, run, Leaves, Apart, All-drop_at, All-get_elem?, State,
  Event, starts, stores, clears,
}

-- The host has an entry with the scheme that does not expire before the time.
pub record IsCached (host scheme : Text) (until : ℕ) (cache : GoMap Text CacheEntry) : Type 0 where
  pub entry : CacheEntry
  pub found : lookup host cache ≡ some entry
  pub same_scheme : entry.scheme ≡ scheme
  pub lasts : until ≤ entry.expires
  pub usable : (text_beq scheme http || text_beq scheme https) ≡ true

module _ (host scheme : Text) (until : ℕ) where
  other_key :
      (other : Text) (e : CacheEntry) (cache : GoMap Text CacheEntry)
      → text_beq other host ≡ false
      → IsCached host scheme until cache
      → IsCached host scheme until (insert other e cache)
  other_key other e cache d c = record {
    entry = c.entry;
    found = lookup-insert other host e cache ∙ rw d c.found;
    same_scheme = c.same_scheme;
    lasts = c.lasts;
    usable = c.usable;
  }

  -- The entry answers, and stays.
  pub look-IsCached :
      (now : ℕ) (hint : SchemeHint) (cache : GoMap Text CacheEntry)
      → is_empty host ≡ false
      → (hint.tls_pinned || hint.prefer_https) ≡ false
      → now < until
      → IsCached host scheme until cache
      → look now host hint cache ≡ (cache, answered scheme)
  unfolding look
  look-IsCached now hint cache full free early c =
      let pinned : hint.tls_pinned ≡ false = ground (arith, free) in
      let preferred : hint.prefer_https ≡ false = ground (arith, free) in
      let hit : ltb now c.entry.expires ≡ true = (let l = c.lasts in ground (arith, early, l)) in
      rw (full, pinned, preferred, c.found, c.same_scheme, hit, c.usable) refl

  look-other :
      (now : ℕ) (other : Text) (hint : SchemeHint) (cache : GoMap Text CacheEntry)
      → text_beq other host ≡ false
      → IsCached host scheme until cache
      → IsCached host scheme until (look now other hint cache).0
  unfolding look
  look-other now other hint cache d c = elim (Bool-cases (is_empty other)) [
    | inl e ↦ rw e c
    | inr e ↦ elim (Bool-cases hint.tls_pinned) [
      | inl p ↦ rw (e, p) (other_key other _ cache d c)
      | inr p ↦ elim (Bool-cases hint.prefer_https) [
        | inl q ↦ rw (e, p, q) (other_key other _ cache d c)
        | inr q ↦ rw (e, p, q) c
      ]
    ]
  ]

  waits-Apart :
      (other : Text) (hint : SchemeHint) (looked : Looked) (l : List (Text × SchemeHint))
      → text_beq other host ≡ false
      → Apart host l
      → Apart host (waits other hint looked l)
  waits-Apart other hint (answered s) l d a = a
  waits-Apart other hint must_probe l d a = (d, a)

  -- The host is cached, and nobody is about to overwrite its entry.
  abbrev IsSettled : State → Type 0
  IsSettled s = IsCached host scheme until s.cache × Apart host s.probing

  stored-IsSettled :
      (dial : Dial) (now i : ℕ) (found : Option (Text × SchemeHint)) (s : State)
      → get_elem? s.probing i ≡ found
      → IsSettled s
      → IsSettled (stored dial now i found s)
  stored-IsSettled dial now i none s e h = h
  stored-IsSettled dial now i (some (other, hint)) s e (c, a) = (
    other_key other _ s.cache
        (All-get_elem? (λ c. text_beq c.0 host ≡ false) s.probing i (other, hint) a e) c,
    All-drop_at (λ c. text_beq c.0 host ≡ false) i s.probing a,
  )

  step-IsSettled :
      (e : Event) (s : State)
      → is_empty host ≡ false
      → Leaves host until e
      → IsSettled s
      → IsSettled (step e s)
  unfolding step clear_scheme_cache
  step-IsSettled (starts now other hint) s full (early, free) (c, a) =
      elim (Bool-cases (text_beq other host)) [
        | inl same ↦
            (let e : other ≡ host = (text_beq_iff other host).0 same in
              let unforced : (hint.tls_pinned || hint.prefer_https) ≡ false = rw same at free in
              rw e (
                subst (λ r. IsSettled (started host hint r s))
                  (sym (look-IsCached now hint s.cache full unforced early c)) (c, a)))
        | inr d ↦ (
          look-other now other hint s.cache d c,
          waits-Apart other hint (look now other hint s.cache).1 s.probing d a,
        )
      ]
  step-IsSettled (stores dial now i) s full h k =
      stored-IsSettled dial now i (get_elem? s.probing i) s refl k
  step-IsSettled (clears other) s full d (c, a) = elim (Bool-cases (is_empty other)) [
    | inl e ↦ rw e (c, a)
    | inr e ↦ rw e (
      record {
        entry = c.entry;
        found = lookup-delete other host s.cache ∙ rw d c.found;
        same_scheme = c.same_scheme;
        lasts = c.lasts;
        usable = c.usable;
      },
      a,
    )
  ]

  run-IsSettled :
      (es : List Event) (s : State)
      → is_empty host ≡ false
      → All (Leaves host until) es
      → IsSettled s
      → IsSettled (run es s)
  unfolding run
  run-IsSettled [] s full a h = h
  run-IsSettled (e ∷ es) s full a h =
      run-IsSettled es (step e s) full a.1 (step-IsSettled e s full a.0 h)

store-IsCached :
    (now : ℕ) (host scheme : Text) (cache : GoMap Text CacheEntry)
    → (text_beq scheme http || text_beq scheme https) ≡ true
    → IsCached host scheme (now + scheme_cache_ttl) (store now host scheme cache).0
store-IsCached now host scheme cache u = record {
  entry = record { scheme = scheme; expires = now + scheme_cache_ttl };
  found = lookup-insert host host _ cache ∙ rw (key_refl host) refl;
  same_scheme = refl;
  lasts = omega arith;
  usable = u;
}

https_usable : (text_beq https http || text_beq https https) ≡ true
unfolding text_beq
https_usable = refl

http_usable : (text_beq http http || text_beq http https) ≡ true
unfolding text_beq
http_usable = refl

probe_scheme-usable :
    (dial : Dial) (ip : Text) (timeout : ℤ)
    → (text_beq (probe_scheme dial ip timeout) http
        || text_beq (probe_scheme dial ip timeout) https)
      ≡ true
probe_scheme-usable dial ip timeout = elim (Bool-cases (is_empty ip)) [
  | inl e ↦ rw e https_usable
  | inr e ↦ elim (Bool-cases (dial_tcp dial ip 443 timeout)) [
    | inl f ↦ rw (e, f) https_usable
    | inr f ↦ elim (Bool-cases (dial_tcp dial ip 80 timeout)) [
      | inl g ↦ rw (e, f, g) http_usable
      | inr g ↦ rw (e, f, g) https_usable
    ]
  ]
]

-- A call that probes a host stores what it has found. If no other call probes this host at that
-- moment, then that is the answer to every call for the host that starts in the next five minutes,
-- from the cache and without a probe, whatever the network does then and however other calls, for
-- this host and others, overlap in between: unless the host is cleared, or a call forces https on it.
pub resolve_scheme-stays :
    (dial : Dial) (now then_now i : ℕ) (host : Text) (hint again : SchemeHint) (s : State)
    (es : List Event)
    → is_empty host ≡ false
    → get_elem? s.probing i ≡ some (host, hint)
    → Apart host (drop_at i s.probing)
    → All (Leaves host (now + scheme_cache_ttl)) es
    → then_now < now + scheme_cache_ttl
    → (again.tls_pinned || again.prefer_https) ≡ false
    → let after = run es (step (stores dial now i) s) in
      look then_now host again after.cache
      ≡ (after.cache, answered (probe_scheme dial host (probe_timeout hint)))
unfolding step
resolve_scheme-stays dial now then_now i host hint again s es full probes alone a early free =
    let scheme = probe_scheme dial host (probe_timeout hint) in
    let until = now + scheme_cache_ttl in
    let begin : State = stored dial now i (get_elem? s.probing i) s in
    let settled : IsSettled host scheme until begin =
      subst (λ found. IsSettled host scheme until (stored dial now i found s)) (sym probes)
        (
          store-IsCached now host scheme s.cache
              (probe_scheme-usable dial host (probe_timeout hint)),
          alone,
        ) in
    let after = run-IsSettled host scheme until es begin full a settled in
    look-IsCached host scheme until then_now again (run es begin).cache full free early after.0
