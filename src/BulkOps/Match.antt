-- ===== src/BulkOps/Match.antt =====
-- internal/bulkops/controller.go, `isRetryable` and its own search in a text.
pub mod Fold
use wavecontrol.Prelude.{
  ℕ, zero, suc, ◌+◌, ◌-◌, Bool, true, false, ◌&&◌, ◌||◌, not, List, [], ◌∷◌, map, ltb, leb,
  if◌then◌else◌, length, take, drop, ◌==◌, Text, codes, nat_eq, int_eq, text_eq,
}

-- One byte in the comparison: capital letters become small.
abbrev pub fold_byte : ℕ → ℕ
fold_byte c = if leb b'A' c && leb c b'Z' then c + 32 else c

-- The loop of `matchesLower` over two texts of one length.
unfoldable pub same_folded : Text → Text → Bool
same_folded [] b = true
same_folded (x ∷ a) [] = true
same_folded (x ∷ a) (y ∷ b) =
    let rest = same_folded a b in if fold_byte x == fold_byte y then rest else false

unfoldable pub matches_lower : Text → Text → Bool
matches_lower a b = if not (length a == length b) then false else same_folded a b

-- The loop of `containsLower`: `count` positions are left, from `i` on.
unfoldable pub scan : Text → Text → ℕ → ℕ → Bool
scan s substr i zero = false
scan s substr i (suc count) =
    let rest = scan s substr (suc i) count in
    if matches_lower (take (length substr) (drop i s)) substr then true else rest

unfoldable pub contains_lower : Text → Text → Bool
contains_lower s substr = scan s substr 0 (length s + 1 - length substr)

unfoldable pub contains_folded : Text → Text → Bool
contains_folded s substr =
    leb (length substr) (length s) && (s == substr || ltb 0 (length s) && contains_lower s substr)

abbrev pub retryable_patterns : List Text
retryable_patterns = map codes (
    "timeout" ∷ "connection refused" ∷ "connection reset" ∷ "no such host" ∷ "temporary failure"
    ∷ "network is unreachable" ∷ "i/o timeout" ∷ "EOF" ∷ "broken pipe" ∷ "503" ∷ "502" ∷ "504" ∷ [])

unfoldable pub any_in : Text → List Text → Bool
any_in err [] = false
any_in err (pattern_text ∷ rest) =
    let others = any_in err rest in if contains_folded err pattern_text then true else others

unfoldable pub is_retryable : Text → Bool
is_retryable err = any_in err retryable_patterns
