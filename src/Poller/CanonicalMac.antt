-- ===== src/Poller/CanonicalMac.antt =====
-- internal/poller/canonical_mac.go: which device answered a poll. `stats.NormalizeMAC` is
-- `strings.ToLower`.
pub mod Identity
use wavecontrol.Prelude.{
  Bool, true, false, ◌||◌, not, List, [], ◌∷◌, ◌++◌, if◌then◌else◌, ◌==◌, Text, is_empty, to_lower,
  trim_space, nat_eq, int_eq, text_eq,
}

pub record CanonicalMacResult : Type 0 where
  pub expected : Text
  pub canonical : Text
  pub observed : List Text
  pub mismatch : Bool

unfoldable pub normalize_mac : Text → Text
normalize_mac = to_lower

unfoldable pub member : Text → List Text → Bool
member m [] = false
member m (o ∷ rest) = o == m || member m rest

unfoldable pub add_observed : List Text → Text → List Text
add_observed obs m = if is_empty m || member m obs then obs else obs ++ (m ∷ [])

-- The loop that normalizes the candidates: an empty or seen one is passed over. The keys of the
-- map `seen` are the elements of `obs`.
unfoldable pub observe : List Text → List Text → List Text
observe obs [] = obs
observe obs (candidate ∷ rest) =
    observe (add_observed obs (normalize_mac (trim_space candidate))) rest

abbrev pub first_or_empty : List Text → Text
first_or_empty [] = []
first_or_empty (m ∷ rest) = m

abbrev pub has_some : List Text → Bool
has_some [] = false
has_some (m ∷ rest) = true

unfoldable pub canonicalize_device_mac : Text → List Text → CanonicalMacResult
canonicalize_device_mac expected candidates =
    let exp = normalize_mac expected in
    let obs = observe [] candidates in
    if not (is_empty exp)
    then (if member exp obs
        then record { expected = exp; canonical = exp; observed = obs; mismatch = false }
        else if has_some obs
        then record { expected = exp; canonical = exp; observed = obs; mismatch = true }
        else record { expected = exp; canonical = exp; observed = obs; mismatch = false })
    else record { expected = []; canonical = first_or_empty obs; observed = obs; mismatch = false }

unfoldable pub canonicalize_device_mac_preferred : Text → Text → List Text → CanonicalMacResult
canonicalize_device_mac_preferred expected preferred others =
    let exp = normalize_mac expected in
    let pref = normalize_mac (trim_space preferred) in
    let obs = observe (if is_empty pref then [] else pref ∷ []) others in
    if not (is_empty exp)
    then (if not (is_empty pref)
        then (if pref == exp
            then record { expected = exp; canonical = exp; observed = obs; mismatch = false }
            else record { expected = exp; canonical = exp; observed = obs; mismatch = true })
        else record (canonicalize_device_mac exp obs) { observed = obs })
    else if not (is_empty pref)
    then record { expected = []; canonical = pref; observed = obs; mismatch = false }
    else record { expected = []; canonical = first_or_empty obs; observed = obs; mismatch = false }
