-- ===== src/Firmware/Examples.antt =====
-- Runs of the comparison of versions, and a use of its theorem.
use wavecontrol.Prelude.{
  Bool, true, ◌≡◌, refl, Text, codes, to_lower, ltb_ℤ, pos, negsuc, is_space, trim_left, trim_right,
  trim, trim_space, has_prefix, trim_prefix,
}
use wavecontrol.Firmware.Version.{
  digits_from, atoi, text_compare, split_from, split_version, is_prerelease, compare_part,
  any_prerelease, compare_parts, compare_versions,
}
use wavecontrol.Firmware.Version.Order.{neg_ℤ, compare_versions-flip}

candidate_first : compare_versions (codes "v4.1.0-RC3") (codes "4.1.0") ≡ negsuc 0
unfolding compare_versions compare_parts compare_part atoi digits_from text_compare any_prerelease
    is_prerelease split_version split_from to_lower has_prefix trim_prefix trim_space trim trim_left
    trim_right is_space
candidate_first = refl

-- The comparison has a cycle: each of these versions is newer than the one before it.
abbrev newer : Text → Text → Bool
newer a b = ltb_ℤ (pos 0) (compare_versions a b)

cycle :
    (newer (codes "10") (codes "2") ≡ true)
    × (newer (codes "1a") (codes "10") ≡ true)
    × (newer (codes "2") (codes "1a") ≡ true)
unfolding compare_versions compare_parts compare_part atoi digits_from text_compare any_prerelease
    is_prerelease split_version split_from to_lower has_prefix trim_prefix trim_space trim trim_left
    trim_right is_space
cycle = (refl, refl, refl)

compare_versions-flip_example :
    compare_versions (codes "4.1.0") (codes "v4.1.0-RC3")
    ≡ neg_ℤ (compare_versions (codes "v4.1.0-RC3") (codes "4.1.0"))
compare_versions-flip_example = compare_versions-flip (codes "v4.1.0-RC3") (codes "4.1.0")
