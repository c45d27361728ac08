-- ===== src/Alerting/Rule/Normal.antt =====
-- The normal form of a rule: `normalizeRule` and `uniqueChannels`.
use wavecontrol.Prelude.{
  false, List, [], ◌∷◌, map, inl, inr, ◌≡◌, refl, ap, ap₂, ◌∙◌, Bool-cases, Text, codes, is_empty,
  to_lower, is_space, trim_left, trim_right, trim, trim_space, trim_idem, to_lower-trim_space_idem,
}
use wavecontrol.Alerting.Rule.{
  severity_auto, or_default, member, unique_loop, unique_channels, normalize_rule, Rule,
}

abbrev IsNormal : Text → Type 0
IsNormal s = to_lower (trim_space s) ≡ s

-- A loop that starts from a list of distinct channels that it has not seen, all of them in normal
-- form and not empty, gives them back.
pub data IsFresh : List Text → List Text → Type 0 where
  nil : {seen : List Text} → IsFresh seen []
  cons :
      {seen : List Text} (ch : Text) {rest : List Text}
      → IsNormal ch
      → is_empty ch ≡ false
      → member ch seen ≡ false
      → IsFresh (ch ∷ seen) rest
      → IsFresh seen (ch ∷ rest)

pub unique_loop_of_IsFresh : (seen l : List Text) → IsFresh seen l → unique_loop seen l ≡ l
unfolding unique_loop
unique_loop_of_IsFresh seen [] f = refl
unique_loop_of_IsFresh seen (_ ∷ l) (cons ch n e m f) =
    rw (n, e, m) (ap (◌∷◌ ch) (unique_loop_of_IsFresh (ch ∷ seen) l f))

pub unique_loop-IsFresh : (seen l : List Text) → IsFresh seen (unique_loop seen l)
unfolding unique_loop
unique_loop-IsFresh seen [] = nil
unique_loop-IsFresh seen (raw ∷ l) = elim (Bool-cases (is_empty (to_lower (trim_space raw)))) [
  | inl e ↦ rw e (unique_loop-IsFresh seen l)
  | inr e ↦ elim (Bool-cases (member (to_lower (trim_space raw)) seen)) [
    | inl m ↦ rw (e, m) (unique_loop-IsFresh seen l)
    | inr m ↦
        rw (e, m)
          (cons (to_lower (trim_space raw)) (to_lower-trim_space_idem raw) e m
            (unique_loop-IsFresh (to_lower (trim_space raw) ∷ seen) l))
  ]
]

map_of_IsFresh : (seen l : List Text) → IsFresh seen l → map (λ ch. to_lower (trim_space ch)) l ≡ l
map_of_IsFresh seen [] f = refl
map_of_IsFresh seen (_ ∷ l) (cons ch n e m f) = ap₂ ◌∷◌ n (map_of_IsFresh (ch ∷ seen) l f)

-- The channels of a normal form keep their order, are in lower case without spaces around them,
-- are not empty and are distinct, whatever the channels were.
pub unique_channels-IsFresh : (channels : List Text) → IsFresh [] (unique_channels channels)
unfolding unique_channels
unique_channels-IsFresh channels = unique_loop-IsFresh [] channels

unique_channels_again :
    (channels : List Text)
    → unique_channels (map (λ ch. to_lower (trim_space ch)) (unique_channels channels))
      ≡ unique_channels channels
unique_channels_again channels =
    let fresh = unique_channels-IsFresh channels in
    ap unique_channels (map_of_IsFresh [] (unique_channels channels) fresh)
    ∙ (unfold unique_channels in unique_loop_of_IsFresh [] (unique_channels channels) fresh)

or_default_self : (d : Text) → or_default d d ≡ d
or_default_self [] = refl
or_default_self (c ∷ d) = refl

or_default_again :
    (s d : Text)
    → IsNormal s
    → IsNormal d
    → or_default (to_lower (trim_space (or_default s d))) d ≡ or_default s d
or_default_again [] d n k = rw k (or_default_self d)
or_default_again (c ∷ s) d n k = rw n

trim_space_idem : (s : Text) → trim_space (trim_space s) ≡ trim_space s
unfolding trim_space
trim_space_idem s = trim_idem is_space s

map-trim_space_idem : (l : List Text) → map trim_space (map trim_space l) ≡ map trim_space l
map-trim_space_idem [] = refl
map-trim_space_idem (s ∷ l) = ap₂ ◌∷◌ (trim_space_idem s) (map-trim_space_idem l)

all-IsNormal : IsNormal (codes "all")
all-IsNormal = unfold to_lower trim_space trim trim_left trim_right is_space in refl

auto-IsNormal : IsNormal severity_auto
auto-IsNormal = unfold to_lower trim_space trim trim_left trim_right is_space in refl

-- A rule in normal form is left as it is, whatever it was before.
pub normalize_rule_idem :
    {F : Type 0} (rule : Rule F) → normalize_rule (normalize_rule rule) ≡ normalize_rule rule
unfolding normalize_rule
normalize_rule_idem rule =
    let again = to_lower-trim_space_idem in
    let scope =
      or_default_again (to_lower (trim_space rule.scope)) (codes "all") (again rule.scope)
        all-IsNormal in
    let role =
      or_default_again (to_lower (trim_space rule.target_role)) (codes "all")
        (again rule.target_role) all-IsNormal in
    let severity =
      or_default_again (to_lower (trim_space rule.severity)) severity_auto (again rule.severity)
        auto-IsNormal in
    rw (
      trim_space_idem rule.name,
      scope,
      role,
      again rule.metric,
      again rule.operator,
      severity,
      trim_space_idem rule.webhook_url,
      unique_channels_again (map (λ ch. to_lower (trim_space ch)) rule.notify_channels),
      map-trim_space_idem rule.notify_emails,
    )
