-- ===== src/Prelude/HostPort.antt =====
-- `net.SplitHostPort`.
use Prim.Native.Nat.{ℕ, ◌+◌}
use mathlib.Core.Bool.{false, ◌||◌}
use mathlib.Core.List.{[], ◌∷◌, ◌++◌}
use mathlib.Core.Logic.{inl, inr}
use mathlib.Core.Option.{Option, none, some}
use mathlib.Core.Path.{◌≡◌, refl, subst}
use native.Mathlib.Omega.{arith}
use wavecontrol.Prelude.Tests.{nat_beq, if◌then◌else◌, Bool-cases}
use wavecontrol.Prelude.Lists.{length, take, drop, All, All-take, All-drop}
use wavecontrol.Prelude.Texts.{Text}
use wavecontrol.Prelude.Strings.{
  has_prefix, index_byte, last_index_byte, has_byte, Lacks, last_index_byte-append, take-append,
  has_byte-Lacks,
}

-- The host of `net.SplitHostPort`; `none` is an error.
plain_host : Text → ℕ → Option Text
unfolding has_byte
plain_host s i =
    let host = take i s in
    if has_byte b':' host || has_byte b'[' s || has_byte b']' s then none else some host

bracketed_host : Text → ℕ → Option Text
unfolding has_byte index_byte
bracketed_host s i = elim (index_byte b']' s) [
  | none ↦ none
  | some end ↦
      if nat_beq (end + 1) i
      then if has_byte b'[' (drop 1 s) || has_byte b']' (drop (end + 1) s)
        then none
        else some (drop 1 (take end s))
      else none
]

unfoldable pub split_host_port : Text → Option Text
unfolding last_index_byte has_prefix plain_host bracketed_host
split_host_port s = elim (last_index_byte b':' s) [
  | none ↦ none
  | some i ↦ if has_prefix s (b'[' ∷ []) then bracketed_host s i else plain_host s i
]

module _ {κ} (P : ℕ → Type κ) where
  All-plain_host :
      (s : Text) (i : ℕ) (host : Text) → plain_host s i ≡ some host → All P s → All P host
  unfolding plain_host
  All-plain_host s i host e h =
      let part : take i s ≡ host = ground arith in subst (All P) part (All-take P i s h)

  All-bracketed_host :
      (s : Text) (i : ℕ) (host : Text) → bracketed_host s i ≡ some host → All P s → All P host
  unfolding bracketed_host
  All-bracketed_host s i host e h = go (index_byte b']' s) refl
    where
      go : (found : Option ℕ) → index_byte b']' s ≡ found → All P host
      go none none_found = cc (none_found, e)
      go (some end) at_end =
          let part : drop 1 (take end s) ≡ host = ground arith in
          subst (All P) part (All-drop P 1 (take end s) (All-take P end s h))

  -- What `SplitHostPort` returns is a part of its argument.
  pub All-split_host_port :
      (s : Text) (host : Text) → split_host_port s ≡ some host → All P s → All P host
  unfolding split_host_port
  All-split_host_port s host e h = go (last_index_byte b':' s) refl
    where
      go : (found : Option ℕ) → last_index_byte b':' s ≡ found → All P host
      go none none_found = cc (none_found, e)
      go (some i) at_colon = elim (Bool-cases (has_prefix s (b'[' ∷ []))) [
        | inl bracket ↦ All-bracketed_host s i host (rw (at_colon, split_host_port, bracket) at e) h
        | inr plain ↦ All-plain_host s i host (rw (at_colon, split_host_port, plain) at e) h
      ]

split_host_port-plain :
    (s : Text) (i : ℕ) (host : Text)
    → last_index_byte b':' s ≡ some i
    → has_prefix s (b'[' ∷ []) ≡ false
    → take i s ≡ host
    → has_byte b':' host ≡ false
    → has_byte b'[' s ≡ false
    → has_byte b']' s ≡ false
    → split_host_port s ≡ some host
unfolding split_host_port
split_host_port-plain s i host at_colon plain e h_colon h_open h_close = ground arith

-- `SplitHostPort` of a host and a port, neither of which has a colon or a bracket.
pub split_host_port-append :
    (c : ℕ) (host port : Text)
    → Lacks b':' (c ∷ host)
    → Lacks b':' port
    → Lacks b'[' ((c ∷ host) ++ b':' ∷ port)
    → Lacks b']' ((c ∷ host) ++ b':' ∷ port)
    → split_host_port ((c ∷ host) ++ b':' ∷ port) ≡ some (c ∷ host)
split_host_port-append c host port h_colon p_colon h_open h_close =
    let s = (c ∷ host) ++ b':' ∷ port in
    split_host_port-plain s (length (c ∷ host)) (c ∷ host)
      (last_index_byte-append (c ∷ host) b':' port p_colon) (unfold has_prefix in rw h_open.0)
      (take-append (c ∷ host) (b':' ∷ port)) (has_byte-Lacks b':' (c ∷ host) h_colon)
      (has_byte-Lacks b'[' s h_open) (has_byte-Lacks b']' s h_close)
