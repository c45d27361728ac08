-- ===== src/Udebug/Host/Key.antt =====
-- What a host key looks like.
use wavecontrol.Prelude.{
  ℕ, Bool, false, ◌&&◌, List, [], ◌∷◌, ◌≢◌, inl, inr, Option, none, some, ◌≡◌, refl, arith, leb,
  nat_beq, Bool-cases, All, Text, is_empty, lower_byte, to_lower, is_space, trim_space, before_any,
  last_index_byte, split_host_port, All-trim, All-split_host_port, before_any-none, behind,
  behind-last_index_byte, All-behind,
}
use wavecontrol.Udebug.Host.{
  ends_authority, is_bracket, without_port, host_of_authority, strip_scheme, normalize_host,
}

abbrev pub is_upper : ℕ → Bool
is_upper c = leb b'A' c && leb c b'Z'

-- A byte that may stand in a key: no separator of a URL, and no capital letter.
abbrev pub IsKeyByte : ℕ → Type 0
IsKeyByte c = (c ≢ b'/') × (c ≢ b'?') × (c ≢ b'#') × (c ≢ b'@') × (is_upper c ≡ false)

abbrev InAuthority : ℕ → Type 0
InAuthority c = ends_authority c ≡ false

abbrev InHost : ℕ → Type 0
InHost c = (ends_authority c ≡ false) × (nat_beq c b'@' ≡ false)

lower_byte-IsKeyByte : (c : ℕ) → InHost c → IsKeyByte (lower_byte c)
unfolding ends_authority
lower_byte-IsKeyByte c h = ground arith

to_lower-IsKeyByte : (s : Text) → All InHost s → All IsKeyByte (to_lower s)
unfolding to_lower
to_lower-IsKeyByte [] h = tt
to_lower-IsKeyByte (c ∷ s) h = (lower_byte-IsKeyByte c h.0, to_lower-IsKeyByte s h.1)

All-zip {ℓ κ} :
    {A : Type ℓ} (P Q : A → Type κ) (xs : List A) → All P xs → All Q xs → All (λ x. P x × Q x) xs
All-zip P Q [] h k = tt
All-zip P Q (x ∷ xs) h k = ((h.0, k.0), All-zip P Q xs h.1 k.1)

All-without_port :
    (h : Text) (split : Option Text)
    → split_host_port h ≡ split
    → All InHost h
    → All InHost (without_port h split)
All-without_port h none e k = k
All-without_port h (some host) e k = All-split_host_port InHost h host e k

host_of_authority-IsKeyByte : (s : Text) → All InAuthority s → All IsKeyByte (host_of_authority s)
unfolding host_of_authority trim_space
host_of_authority-IsKeyByte s h =
    let host = behind s (last_index_byte b'@' s) in
    let in_host : All InHost host =
      All-zip InAuthority (λ c. nat_beq c b'@' ≡ false) host (All-behind InAuthority s _ h)
        (behind-last_index_byte b'@' s) in
    to_lower-IsKeyByte _ (
      All-trim InHost is_space _
        (All-trim InHost is_bracket _ (All-without_port host _ refl in_host)))

-- Whatever text names a host, its key has no `/`, `?`, `#` or `@` and no capital letter.
pub normalize_host-IsKeyByte : (input : Text) → All IsKeyByte (normalize_host input)
unfolding normalize_host
normalize_host-IsKeyByte input = elim (Bool-cases (is_empty (trim_space input))) [
  | inl empty ↦ rw empty tt
  | inr more ↦ rw more (
      host_of_authority-IsKeyByte (before_any ends_authority (strip_scheme (trim_space input)))
        (before_any-none ends_authority (strip_scheme (trim_space input))))
]
