-- ===== src/Poller/CanonicalMac/Identity.antt =====
-- When a poll result is taken for another device's.
use wavecontrol.Prelude.{
  Bool, true, false, ◌&&◌, ◌||◌, not, List, [], ◌∷◌, ◌++◌, inl, inr, ◌≡◌, refl, ap, ◌∙◌, arith,
  Bool-cases, All, All-append, ◌==◌, Text, text_beq_iff, is_empty, to_lower_idem, trim_space,
  to_lower-trim_space_idem, nat_eq, int_eq, text_eq,
}
use wavecontrol.Poller.CanonicalMac.{
  normalize_mac, member, add_observed, observe, first_or_empty, has_some, canonicalize_device_mac,
  canonicalize_device_mac_preferred,
}

-- The MAC address that a candidate text names.
abbrev pub mac_of : Text → Text
mac_of candidate = normalize_mac (trim_space candidate)

-- Whether some candidate names an address at all, and whether one names a given address.
abbrev pub names_some : List Text → Bool
names_some [] = false
names_some (c ∷ rest) = not (is_empty (mac_of c)) || names_some rest

abbrev pub names : Text → List Text → Bool
names mac [] = false
names mac (c ∷ rest) = mac_of c == mac || names mac rest

abbrev Nonempty : Text → Type 0
Nonempty m = is_empty m ≡ false

no_member : (m : Text) → member m [] ≡ false
unfolding member
no_member m = refl

member-append :
    (m o : Text) (obs : List Text) → member m (obs ++ (o ∷ [])) ≡ (member m obs || o == m)
unfolding member
member-append m o [] = ground arith
member-append m o (x ∷ obs) = ground (arith, member-append m o obs)

member-add_observed :
    (m o : Text) (obs : List Text)
    → Nonempty m
    → member m (add_observed obs o) ≡ (member m obs || o == m)
unfolding add_observed
member-add_observed m o obs h = ground (arith, member-append m o obs, text_beq_iff o m)

member-observe :
    (m : Text) (obs candidates : List Text)
    → Nonempty m
    → member m (observe obs candidates) ≡ (member m obs || names m candidates)
unfolding observe
member-observe m obs [] h = ground arith
member-observe m obs (c ∷ rest) h = ground (
  arith,
  member-observe m (add_observed obs (mac_of c)) rest h,
  member-add_observed m (mac_of c) obs h,
)

has_some-append : (o : Text) (obs : List Text) → has_some (obs ++ (o ∷ [])) ≡ true
has_some-append o [] = refl
has_some-append o (x ∷ obs) = refl

member-has_some : (m : Text) (obs : List Text) → member m obs ≡ true → has_some obs ≡ true
unfolding member
member-has_some m [] h = h
member-has_some m (x ∷ obs) h = refl

has_some-add_observed :
    (o : Text) (obs : List Text)
    → has_some (add_observed obs o) ≡ (has_some obs || not (is_empty o))
unfolding add_observed
has_some-add_observed o obs = ground (arith, has_some-append o obs, member-has_some o obs)

has_some-observe :
    (obs candidates : List Text)
    → has_some (observe obs candidates) ≡ (has_some obs || names_some candidates)
unfolding observe
has_some-observe obs [] = ground arith
has_some-observe obs (c ∷ rest) = ground (
  arith,
  has_some-observe (add_observed obs (mac_of c)) rest,
  has_some-add_observed (mac_of c) obs,
)

-- An address is its own normal form.
mac_of_idem : (c : Text) → mac_of (mac_of c) ≡ mac_of c
unfolding normalize_mac
mac_of_idem c = to_lower-trim_space_idem c

-- What the loop collects: addresses in normal form.
abbrev IsMac : Text → Type 0
IsMac m = (mac_of m ≡ m) × Nonempty m

add_observed-IsMac :
    (c : Text) (obs : List Text) → All IsMac obs → All IsMac (add_observed obs (mac_of c))
unfolding add_observed
add_observed-IsMac c obs h = elim (Bool-cases (is_empty (mac_of c))) [
  | inl empty ↦ rw empty h
  | inr more ↦ elim (Bool-cases (member (mac_of c) obs)) [
    | inl seen ↦ rw (more, seen) h
    | inr new ↦ rw (more, new) (All-append IsMac obs (mac_of c ∷ []) h ((mac_of_idem c, more), tt))
  ]
]

observe-IsMac : (obs candidates : List Text) → All IsMac obs → All IsMac (observe obs candidates)
unfolding observe
observe-IsMac obs [] h = h
observe-IsMac obs (c ∷ rest) h =
    observe-IsMac (add_observed obs (mac_of c)) rest (add_observed-IsMac c obs h)

names-member : (x : Text) (obs : List Text) → All IsMac obs → names x obs ≡ member x obs
unfolding member
names-member x [] h = refl
names-member x (m ∷ obs) h = rw (h.0.0) (ap (λ b. m == x || b) (names-member x obs h.1))

names_some-has_some : (obs : List Text) → All IsMac obs → names_some obs ≡ has_some obs
names_some-has_some [] h = refl
names_some-has_some (m ∷ obs) h = rw (h.0.0, h.0.1)

is_empty-first_or_empty :
    (obs : List Text) → All IsMac obs → is_empty (first_or_empty obs) ≡ not (has_some obs)
is_empty-first_or_empty [] h = refl
is_empty-first_or_empty (m ∷ obs) h = h.0.1

-- A poll result is a mismatch exactly if a MAC address is expected, some candidate names an
-- address, and none names the expected one; an expected address stays the canonical one.
pub canonicalize_device_mac-mismatch :
    (expected : Text) (candidates : List Text)
    → let r = canonicalize_device_mac expected candidates in
      let exp = normalize_mac expected in
      (r.mismatch ≡ (not (is_empty exp) && names_some candidates && not (names exp candidates)))
      × (is_empty exp ≡ false → r.canonical ≡ exp)
      × (is_empty exp ≡ true → is_empty r.canonical ≡ not (names_some candidates))
unfolding canonicalize_device_mac
canonicalize_device_mac-mismatch expected candidates =
    let exp = normalize_mac expected in
    let obs = observe [] candidates in
    (
      ground
          (arith, member-observe exp [] candidates, has_some-observe [] candidates, no_member exp),
      ground arith,
      ground (
        arith,
        has_some-observe [] candidates,
        is_empty-first_or_empty obs (observe-IsMac [] candidates tt),
      ),
    )

-- With a preferred address that names none, the preferred rule is the plain one on the others.
pub canonicalize_device_mac_preferred-absent :
    (expected preferred : Text) (others : List Text)
    → is_empty (mac_of preferred) ≡ true
    → canonicalize_device_mac_preferred expected preferred others
      ≡ canonicalize_device_mac expected others
unfolding canonicalize_device_mac_preferred canonicalize_device_mac
canonicalize_device_mac_preferred-absent expected preferred others absent =
    let exp = normalize_mac expected in
    let obs = observe [] others in
    let normal : normalize_mac exp ≡ exp = unfold normalize_mac in to_lower_idem expected in
    let macs = observe-IsMac [] others tt in
    let same_some : has_some (observe [] obs) ≡ has_some obs =
      has_some-observe [] obs ∙ names_some-has_some obs macs in
    elim (Bool-cases (is_empty exp)) [
      | inl empty ↦ rw (absent, empty)
      | inr more ↦
          let same_member : member exp (observe [] obs) ≡ member exp obs =
            member-observe exp [] obs more ∙ rw no_member (names-member exp obs macs) in
          rw absent (
            rw normal (
              rw more (
                rw same_member (
                  rw same_some (elim (Bool-cases (member exp obs)) [
                    | inl a ↦ rw a
                    | inr a ↦ elim (Bool-cases (has_some obs)) [
                      | inl b ↦ rw (a, b)
                      | inr b ↦ rw (a, b)
                    ]
                  ])))))
    ]
