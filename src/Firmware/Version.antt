-- ===== src/Firmware/Version.antt =====
-- internal/firmware/service.go: `compareVersions`, `splitVersion`, `isPrerelease` and
-- `platformOrder`.
pub mod Order
use wavecontrol.Prelude.{
  ℕ, zero, suc, ◌+◌, ◌-◌, ◌*◌, ◌^◌, Bool, false, ◌&&◌, ◌||◌, not, List, [], ◌∷◌, ◌++◌, Option, none,
  some, ltb, leb, nat_beq, if◌then◌else◌, length, ◌==◌, Text, codes, text_beq, to_lower, int_beq,
  sub_ℤ, ℤ, pos, negsuc, trim_space, has_prefix, trim_prefix, nat_eq, int_eq, text_eq,
}

abbrev is_digit : ℕ → Bool
is_digit c = leb b'0' c && leb c b'9'

-- The value of decimal digits, behind the one that is read already.
unfoldable pub digits_from : ℕ → Text → Option ℕ
digits_from acc [] = some acc
digits_from acc (c ∷ s) =
    let rest = digits_from (acc * 10 + (c - b'0')) s in if is_digit c then rest else none

abbrev pub digits : Text → Option ℕ
digits [] = none
digits (c ∷ s) = digits_from 0 (c ∷ s)

abbrev pub in_range : ℕ → (ℕ → ℤ) → Option ℕ → Option ℤ
in_range limit sign none = none
in_range limit sign (some n) = if leb n limit then some (sign n) else none

abbrev pub minus : ℕ → ℤ
minus zero = pos zero
minus (suc n) = negsuc n

-- `strconv.Atoi`; none is an error.
unfoldable pub atoi : Text → Option ℤ
unfolding digits_from
atoi [] = none
atoi (c ∷ s) =
    if nat_beq c b'+'
    then in_range (2 ^ 63 - 1) pos (digits s)
    else if nat_beq c b'-'
    then in_range (2 ^ 63) minus (digits s)
    else in_range (2 ^ 63 - 1) pos (digits (c ∷ s))

-- `strings.Compare`
unfoldable pub text_compare : Text → Text → ℤ
text_compare [] [] = pos 0
text_compare [] (b ∷ t) = negsuc 0
text_compare (a ∷ s) [] = pos 1
text_compare (a ∷ s) (b ∷ t) =
    let rest = text_compare s t in if ltb a b then negsuc 0 else if ltb b a then pos 1 else rest

abbrev is_separator : ℕ → Bool
is_separator c = nat_beq c b'.' || nat_beq c b'-' || nat_beq c b'_'

abbrev flush : Text → List Text → List Text
flush [] parts = parts
flush (c ∷ s) parts = (c ∷ s) ∷ parts

-- The loop of `splitVersion` with the part that is being read.
unfoldable pub split_from : Text → Text → List Text
split_from current [] = flush current []
split_from current (c ∷ s) =
    let ended = flush current (split_from [] s) in
    let longer = split_from (current ++ c ∷ []) s in if is_separator c then ended else longer

unfoldable pub split_version : Text → List Text
unfolding split_from
split_version v = split_from [] v

unfoldable pub is_prerelease : Text → Bool
unfolding to_lower has_prefix
is_prerelease s =
    let lower = to_lower s in
    has_prefix lower (codes "rc")
    || has_prefix lower (codes "beta")
    || has_prefix lower (codes "alpha")
    || has_prefix lower (codes "dev")
    || has_prefix lower (codes "pre")

-- What two parts decide: nothing, where the comparison goes on behind them.
abbrev pub compare_texts : Text → Text → Option ℤ
compare_texts a b =
    let cmp = text_compare (to_lower a) (to_lower b) in
    if int_beq cmp (pos 0)
    then none
    else if is_prerelease a && not (is_prerelease b)
    then some (negsuc 0)
    else if not (is_prerelease a) && is_prerelease b
    then some (pos 1)
    else some cmp

abbrev pub compare_read : Option ℤ → Option ℤ → Text → Text → Option ℤ
compare_read (some m) (some n) a b = if int_beq m n then none else some (sub_ℤ m n)
compare_read (some m) none a b = compare_texts a b
compare_read none n a b = compare_texts a b

unfoldable pub compare_part : Text → Text → Option ℤ
unfolding atoi text_compare is_prerelease
compare_part a b = compare_read (atoi a) (atoi b) a b

abbrev pub or_else : Option ℤ → ℤ → ℤ
or_else none rest = rest
or_else (some r) rest = r

unfoldable pub any_prerelease : List Text → Bool
unfolding is_prerelease
any_prerelease [] = false
any_prerelease (p ∷ parts) = is_prerelease p || any_prerelease parts

-- The loop, and behind it the extra parts of the longer version.
unfoldable pub compare_parts : List Text → List Text → ℤ
unfolding compare_part any_prerelease
compare_parts [] [] = pos 0
compare_parts [] (b ∷ ys) =
    if any_prerelease (b ∷ ys) then pos 1 else sub_ℤ (pos 0) (pos (length (b ∷ ys)))
compare_parts (a ∷ xs) [] =
    if any_prerelease (a ∷ xs) then negsuc 0 else sub_ℤ (pos (length (a ∷ xs))) (pos 0)
compare_parts (a ∷ xs) (b ∷ ys) = or_else (compare_part a b) (compare_parts xs ys)

abbrev pub bare : Text → Text
bare v = trim_prefix (trim_prefix (trim_space v) (codes "v")) (codes "V")

unfoldable pub compare_versions : Text → Text → ℤ
unfolding trim_space trim_prefix split_version compare_parts
compare_versions a b = compare_parts (split_version (bare a)) (split_version (bare b))

unfoldable pub platform_order : Text → ℕ
unfolding text_beq
platform_order platform =
    if platform == codes "Wave"
    then 1
    else if platform == codes "MLO"
    then 2
    else if platform == codes "LTU"
    then 3
    else if platform == codes "airMAX AC"
    then 4
    else if platform == codes "airMAX M"
    then 5
    else if platform == codes "AirFiber"
    then 6
    else 99
