-- ===== src/Stats/Store/Identity.antt =====
-- What the calls make of the identity index.
use wavecontrol.Prelude.{
  ℕ, Bool, true, false, ◌&&◌, not, List, [], ◌∷◌, inl, inr, some, ◌≡◌, refl, arith, if◌then◌else◌,
  Bool-cases, ◌==◌, Text, is_empty, to_lower, ℤ, nat_eq, int_eq, text_eq,
}
use wavecontrol.GoMap.{GoMap, lookup}
use wavecontrol.Stats.Index.{or_empty, link, relink, Index}
use wavecontrol.Stats.Index.Linked.{link-Assigns, relink-Assigns, Linked}
use wavecontrol.Stats.Index.Preserved.{Linked-Assigns, unlink_mac-Linked, unlink_ip-Linked}
use wavecontrol.Stats.Device.{normalize_mac, InterfaceStats, DeviceStats}
use wavecontrol.Stats.Store.{
  filter_allows, get_ip_by_mac, set_ip_for_mac, update, resolve, bind_identity_by_mac,
  set_status_by_mac_changed, remove_by_mac, remove, Store,
}

pub data Call (M : Type 0) : Type 0 where
  sets_ip : Text → Text → Call M
  updates : ℕ → Text → DeviceStats M → Call M
  binds : Text → Text → ℤ → ℤ → Call M
  sets_status : ℕ → Text → Text → Text → Text → Text → Bool → Call M
  removes_mac : Text → Call M
  removes_ip : Text → Call M

to_lower_empty : (t : Text) → is_empty (to_lower t) ≡ is_empty t
unfolding to_lower
to_lower_empty [] = refl
to_lower_empty (c ∷ t) = refl

module _ {M : Type 0}
    (slice_stable : (InterfaceStats M → InterfaceStats M → Bool)
      → List (InterfaceStats M)
      → List (InterfaceStats M)) where
  unfoldable pub step : Call M → Store M → Store M
  step (sets_ip mac ip) s = (set_ip_for_mac mac ip s).0
  step (updates now ip stats) s = (update slice_stable now ip stats s).0
  step (binds mac ip device_id site_id) s = bind_identity_by_mac mac ip device_id site_id s
  step (sets_status now mac ip status reason err_msg seen) s =
      (set_status_by_mac_changed now mac ip status reason err_msg seen s).0
  step (removes_mac mac) s = remove_by_mac mac s
  step (removes_ip ip) s = remove ip s

  unfoldable pub run : List (Call M) → Store M → Store M
  run [] s = s
  run (call ∷ rest) s = run rest (step call s)

Linked-if :
    (c : Bool) (a b : Index) → (c ≡ true → Linked a) → Linked b → Linked (if c then a else b)
Linked-if true a b h k = h refl
Linked-if false a b h k = k

link-Linked :
    (mac ip : Text) (ix : Index) → is_empty mac ≡ false → Linked ix → Linked (link mac ip ix)
link-Linked mac ip ix present h = Linked-Assigns mac ip ix _ present (link-Assigns mac ip ix h) h

relink-Linked :
    (mac ip : Text) (ix : Index) → is_empty mac ≡ false → Linked ix → Linked (relink mac ip ix)
relink-Linked mac ip ix present h =
    Linked-Assigns mac ip ix _ present (relink-Assigns mac ip ix h) h

lookup-or_empty :
    (k : Text) (m : GoMap Text Text)
    → is_empty (or_empty (lookup k m)) ≡ false
    → lookup k m ≡ some (or_empty (lookup k m))
lookup-or_empty k m more = ground arith

module _ {M : Type 0} (s : Store M) where
  -- Where a call changes the index, it is by one of the assignments or removals.
  pub index-set_ip_for_mac :
      (mac ip : Text)
      → (set_ip_for_mac mac ip s).0.index ≡ (
          if not (is_empty (normalize_mac mac))
            && filter_allows s.ip_filter ip
            && not (get_ip_by_mac mac s == ip)
          then relink (normalize_mac mac) ip s.index
          else s.index)
  unfolding set_ip_for_mac get_ip_by_mac
  index-set_ip_for_mac mac ip = ground arith

  index-bind_identity_by_mac :
      (mac_text ip : Text) (device_id site_id : ℤ)
      → let mac = (resolve (normalize_mac mac_text) ip s).0 in
        (bind_identity_by_mac mac_text ip device_id site_id s).index
        ≡ (if not (is_empty mac) && not (is_empty ip) then link mac ip s.index else s.index)
  unfolding bind_identity_by_mac resolve
  index-bind_identity_by_mac mac_text ip device_id site_id = ground arith

  index-set_status_by_mac_changed :
      (now : ℕ) (mac_text ip status reason err_msg : Text) (seen : Bool)
      → let mac = (resolve (normalize_mac mac_text) ip s).0 in
        (set_status_by_mac_changed now mac_text ip status reason err_msg seen s).0.index
        ≡ (if not (is_empty mac) && not (is_empty ip) then link mac ip s.index else s.index)
  unfolding set_status_by_mac_changed resolve
  index-set_status_by_mac_changed now mac_text ip status reason err_msg seen = ground arith

  Linked-remove : (ip : Text) → Linked s.index → Linked (remove ip s).index
  unfolding remove
  Linked-remove ip h = elim (Bool-cases (is_empty ip)) [
    | inl none_given ↦ rw none_given h
    | inr given ↦ elim (Bool-cases (is_empty (or_empty (lookup ip s.index.by_ip)))) [
      | inl free ↦ rw (given, free) h
      | inr held ↦
          rw (given, held) (unlink_ip-Linked ip _ s.index (lookup-or_empty ip s.index.by_ip held) h)
    ]
  ]

  Linked-remove_by_mac : (mac : Text) → Linked s.index → Linked (remove_by_mac mac s).index
  unfolding remove_by_mac
  Linked-remove_by_mac mac h = elim (Bool-cases (is_empty (normalize_mac mac))) [
    | inl none_given ↦ rw none_given h
    | inr given ↦ rw given (unlink_mac-Linked (normalize_mac mac) s.index h)
  ]

module _ {M : Type 0}
    (slice_stable : (InterfaceStats M → InterfaceStats M → Bool)
      → List (InterfaceStats M)
      → List (InterfaceStats M)) where
  Linked-step :
      (call : Call M) (s : Store M) → Linked s.index → Linked (step slice_stable call s).index
  unfolding step
  Linked-step (sets_ip mac ip) s h =
      rw (index-set_ip_for_mac s mac ip)
        (Linked-if _ _ _ (λ c. relink-Linked (normalize_mac mac) ip s.index (ground arith) h) h)
  Linked-step (updates now ip stats) s h =
      unfold update in
      (elim (Bool-cases (is_empty (normalize_mac stats.mac))) [
        | inl none_given ↦ rw none_given h
        | inr given ↦ rw given (link-Linked (normalize_mac stats.mac) ip s.index given h)
      ])
  Linked-step (binds mac ip device_id site_id) s h =
      rw (index-bind_identity_by_mac s mac ip device_id site_id) (
        Linked-if _ _ _
          (λ c. link-Linked (resolve (normalize_mac mac) ip s).0 ip s.index (ground arith) h) h)
  Linked-step (sets_status now mac ip status reason err_msg seen) s h =
      rw (index-set_status_by_mac_changed s now mac ip status reason err_msg seen) (
        Linked-if _ _ _
          (λ c. link-Linked (resolve (normalize_mac mac) ip s).0 ip s.index (ground arith) h) h)
  Linked-step (removes_mac mac) s h = Linked-remove_by_mac s mac h
  Linked-step (removes_ip ip) s h = Linked-remove s ip h

  -- If at first each IP that is not empty and its MAC address name each other in the two maps, they
  -- do so after any calls of `SetIPForMAC`, `Update`, `BindIdentityByMAC`, `SetStatusByMACChanged`,
  -- `RemoveByMAC` and `Remove`, in any order and with any arguments.
  pub Linked-run :
      (calls : List (Call M)) (s : Store M)
      → Linked s.index
      → Linked (run slice_stable calls s).index
  unfolding run
  Linked-run [] s h = h
  Linked-run (call ∷ rest) s h = Linked-run rest (step slice_stable call s) (Linked-step call s h)
