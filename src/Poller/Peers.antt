-- ===== src/Poller/Peers.antt =====
-- internal/poller/poller_core.go, `acceptPeerSnapshot`: one empty peer list is not believed.
use wavecontrol.Prelude.{
  ℕ, ◌+◌, min, Bool, true, false, ◌||◌, List, [], ◌∷◌, Option, none, some, ◌≡◌, refl, arith, ltb,
  nat_beq, if◌then◌else◌, ◌==◌, int_beq_iff, ℤ, nat_eq, int_eq, text_eq,
}
use wavecontrol.GoMap.{GoMap, insert, lookup, delete, lookup-insert, lookup-delete}

abbrev pub EmptyPolls : Type 0
EmptyPolls = GoMap ℤ ℕ

-- `m[k]` of a map of numbers
abbrev pub or_zero : Option ℕ → ℕ
or_zero none = 0
or_zero (some n) = n

-- A snapshot enters by the number of its peers.
unfoldable pub accept_peer_snapshot : ℤ → ℕ → EmptyPolls → EmptyPolls × Bool
accept_peer_snapshot ap_id peers polls =
    let count = or_zero (lookup ap_id polls) + 1 in
    if ltb 0 peers
    then (delete ap_id polls, true)
    else if ltb count 2
    then (insert ap_id count polls, false)
    else (insert ap_id 2 polls, true)

-- The polls of the access points, the newest first.
unfoldable pub after_polls : List (ℤ × ℕ) → EmptyPolls
after_polls [] = []
after_polls ((ap_id, peers) ∷ older) = (accept_peer_snapshot ap_id peers (after_polls older)).0

-- Whether the last snapshot of the access point was empty.
pub last_empty : ℤ → List (ℤ × ℕ) → Bool
last_empty ap_id [] = false
last_empty ap_id ((j, peers) ∷ older) =
    let rest = last_empty ap_id older in if j == ap_id then nat_beq peers 0 else rest

count-step :
    (j q : ℤ) (peers : ℕ) (s : EmptyPolls)
    → or_zero (lookup q (accept_peer_snapshot j peers s).0) ≡ (
        if j == q
        then (if ltb 0 peers then 0 else min (or_zero (lookup q s) + 1) 2)
        else or_zero (lookup q s))
unfolding accept_peer_snapshot
count-step j q peers s = ground (
  arith,
  lookup-delete j q s,
  lookup-insert j q (or_zero (lookup j s) + 1) s,
  lookup-insert j q 2 s,
  int_beq_iff j q,
)

-- The counter of an access point is positive exactly while its last snapshot was empty.
count-last_empty :
    (ap_id : ℤ) (polls : List (ℤ × ℕ))
    → ltb 0 (or_zero (lookup ap_id (after_polls polls))) ≡ last_empty ap_id polls
unfolding after_polls last_empty
count-last_empty ap_id [] = unfold lookup in refl
count-last_empty ap_id ((j, peers) ∷ older) =
    ground (arith, count-step j ap_id peers (after_polls older), count-last_empty ap_id older)

-- A snapshot is accepted exactly if it has peers or the access point's snapshot before it was
-- empty too, whatever other access points report in between.
pub accept_peer_snapshot-last_empty :
    (ap_id : ℤ) (peers : ℕ) (polls : List (ℤ × ℕ))
    → (accept_peer_snapshot ap_id peers (after_polls polls)).1
      ≡ (ltb 0 peers || last_empty ap_id polls)
unfolding accept_peer_snapshot
accept_peer_snapshot-last_empty ap_id peers polls = ground (arith, count-last_empty ap_id polls)
