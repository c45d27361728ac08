-- ===== src/Stats/Store/Status.antt =====
-- The status fields of an entry.
use wavecontrol.Prelude.{
  ℕ, Bool, true, false, ◌||◌, not, List, [], ◌∷◌, ◌⊎◌, inl, inr, Option, none, some, ◌≡◌, refl, sym,
  arith, if◌then◌else◌, Bool-cases, ◌==◌, Text, text_beq, is_empty, ℤ, nat_eq, int_eq, text_eq,
}
use wavecontrol.GoMap.{
  GoMap, key_refl, lookup, delete, AllValues, AllValues-insert, AllValues-delete, AllValues-lookup,
}
use wavecontrol.Stats.Index.{or_empty}
use wavecontrol.Stats.Device.{
  status_online, normalize_mac, ip_key, empty_stats, inherit, or_empty_stats, InterfaceStats,
  DeviceStats,
}
use wavecontrol.Stats.Store.{
  filter_allows, new_store, move_device, set_ip_for_mac, existing, update, resolve,
  bind_identity_by_mac, set_status_by_mac_changed, get, remove_by_mac, remove, Store,
}
use wavecontrol.Stats.Store.Identity.{
  step, run, Call, sets_ip, updates, binds, sets_status, removes_mac, removes_ip,
}

-- The three status fields of an entry agree.
pub record IsConsistent {M : Type 0} (ds : DeviceStats M) : Type 0 where
  pub flag : ds.online ≡ (ds.status == status_online)
  pub mirror : ds.db_status ≡ ds.status

abbrev pub AllConsistent : {M : Type 0} → GoMap Text (DeviceStats M) → Type 0
AllConsistent = AllValues IsConsistent

module _ {M : Type 0} where
  empty_stats-IsConsistent : IsConsistent (empty_stats {M = M})
  empty_stats-IsConsistent = record { flag = unfold text_beq in refl; mirror = refl }

  or_empty_stats-IsConsistent :
      (k : Text) (devices : GoMap Text (DeviceStats M))
      → AllConsistent devices
      → IsConsistent (or_empty_stats (lookup k devices))
  or_empty_stats-IsConsistent k devices a = go (lookup k devices) refl
    where
      go :
          (found : Option (DeviceStats M))
          → lookup k devices ≡ found
          → IsConsistent (or_empty_stats found)
      go none e = empty_stats-IsConsistent
      go (some ds) e = AllValues-lookup IsConsistent k devices ds e a

  move_device-AllConsistent :
      (key ip : Text) (found : Option (DeviceStats M)) (devices : GoMap Text (DeviceStats M))
      → lookup key devices ≡ found
      → AllConsistent devices
      → AllConsistent (move_device key ip found devices)
  move_device-AllConsistent key ip none devices e a = a
  move_device-AllConsistent key ip (some ds) devices e a =
      let old = AllValues-lookup IsConsistent key devices ds e a in
      AllValues-insert IsConsistent key (record ds { ip = ip }) devices
        (record { flag = old.flag; mirror = old.mirror }) a

  AllConsistent-if :
      (c : Bool) (a b : GoMap Text (DeviceStats M))
      → AllConsistent a
      → AllConsistent b
      → AllConsistent (if c then a else b)
  AllConsistent-if true a b h k = h
  AllConsistent-if false a b h k = k

  AllConsistent-set_ip_for_mac :
      (mac ip : Text) (s : Store M)
      → AllConsistent s.devices
      → AllConsistent (set_ip_for_mac mac ip s).0.devices
  AllConsistent-set_ip_for_mac mac ip s a =
      let m = normalize_mac mac in
      let moved = move_device m ip (lookup m s.devices) s.devices in
      let a' = move_device-AllConsistent m ip (lookup m s.devices) s.devices refl a in
      let new = if is_empty ip then moved else delete (ip_key ip) moved in
      let c =
        is_empty m
        || not (filter_allows s.ip_filter ip)
        || or_empty (lookup m s.index.by_mac) == ip in
      let e : (set_ip_for_mac mac ip s).0.devices ≡ (if c then s.devices else new) =
        unfold set_ip_for_mac in ground arith in
      rw e (
        AllConsistent-if c s.devices new a (
          AllConsistent-if (is_empty ip) moved (delete (ip_key ip) moved) a'
            (AllValues-delete IsConsistent (ip_key ip) moved a')))

  inherit-IsConsistent :
      (before : Option (DeviceStats M)) (ds : DeviceStats M)
      → IsConsistent ds
      → IsConsistent (inherit before ds)
  inherit-IsConsistent none ds h = h
  inherit-IsConsistent (some old) ds h = record { flag = h.flag; mirror = h.mirror }

  AllConsistent-bind_identity_by_mac :
      (mac_text ip : Text) (device_id site_id : ℤ) (s : Store M)
      → AllConsistent s.devices
      → AllConsistent (bind_identity_by_mac mac_text ip device_id site_id s).devices
  unfolding bind_identity_by_mac
  AllConsistent-bind_identity_by_mac mac_text ip device_id site_id s a =
      let found = resolve (normalize_mac mac_text) ip s in
      let old = or_empty_stats-IsConsistent found.1 s.devices a in
      let bound =
        AllValues-insert IsConsistent found.1 _ s.devices
          (record { flag = old.flag; mirror = old.mirror }) a in
      elim (Bool-cases (is_empty found.1)) [
        | inl nothing ↦ rw nothing a
        | inr keyed ↦ elim (Bool-cases (is_empty found.0 || is_empty ip)) [
          | inl partial ↦ rw (keyed, partial) bound
          | inr both ↦ rw (keyed, both) (AllValues-delete IsConsistent (ip_key ip) _ bound)
        ]
      ]

  AllConsistent-set_status :
      (now : ℕ) (mac_text ip status reason err_msg : Text) (seen : Bool) (s : Store M)
      → AllConsistent s.devices
      → AllConsistent
          (set_status_by_mac_changed now mac_text ip status reason err_msg seen s).0.devices
  unfolding set_status_by_mac_changed
  AllConsistent-set_status now mac_text ip status reason err_msg seen s a =
      let found = resolve (normalize_mac mac_text) ip s in
      elim (Bool-cases (is_empty found.1)) [
        | inl nothing ↦ rw nothing a
        | inr keyed ↦ rw keyed (
            AllValues-insert IsConsistent found.1 _ s.devices
              (record { flag = refl; mirror = refl }) a)
      ]

module _ {M : Type 0}
    (slice_stable : (InterfaceStats M → InterfaceStats M → Bool)
      → List (InterfaceStats M)
      → List (InterfaceStats M)) where
  AllConsistent-update :
      (now : ℕ) (ip : Text) (stats : DeviceStats M) (s : Store M)
      → AllConsistent s.devices
      → AllConsistent (update slice_stable now ip stats s).0.devices
  unfolding update
  AllConsistent-update now ip stats s a =
      let mac = normalize_mac stats.mac in
      AllValues-insert IsConsistent _ _ _
        (inherit-IsConsistent (existing mac ip s) _
          (record { flag = sym (key_refl status_online); mirror = refl }))
        (AllConsistent-if (is_empty mac) s.devices (delete (ip_key ip) s.devices) a
          (AllValues-delete IsConsistent (ip_key ip) s.devices a))

  AllConsistent-step :
      (call : Call M) (s : Store M)
      → AllConsistent s.devices
      → AllConsistent (step slice_stable call s).devices
  unfolding step
  AllConsistent-step (sets_ip mac ip) s a = AllConsistent-set_ip_for_mac mac ip s a
  AllConsistent-step (updates now ip stats) s a = AllConsistent-update now ip stats s a
  AllConsistent-step (binds mac ip device_id site_id) s a =
      AllConsistent-bind_identity_by_mac mac ip device_id site_id s a
  AllConsistent-step (sets_status now mac ip status reason err_msg seen) s a =
      AllConsistent-set_status now mac ip status reason err_msg seen s a
  AllConsistent-step (removes_mac mac) s a =
      unfold remove_by_mac in
      (elim (Bool-cases (is_empty (normalize_mac mac))) [
        | inl e ↦ rw e a
        | inr e ↦ rw e (AllValues-delete IsConsistent (normalize_mac mac) s.devices a)
      ])
  AllConsistent-step (removes_ip ip) s a =
      unfold remove in
      (let mac = or_empty (lookup ip s.index.by_ip) in
        elim (Bool-cases (is_empty ip)) [
          | inl e ↦ rw e a
          | inr given ↦ elim (Bool-cases (is_empty mac)) [
            | inl e ↦ rw (given, e) (AllValues-delete IsConsistent (ip_key ip) s.devices a)
            | inr e ↦ rw (given, e) (AllValues-delete IsConsistent mac s.devices a)
          ]
        ])

  pub AllConsistent-run :
      (calls : List (Call M)) (s : Store M)
      → AllConsistent s.devices
      → AllConsistent (run slice_stable calls s).devices
  unfolding run
  AllConsistent-run [] s a = a
  AllConsistent-run (call ∷ rest) s a =
      AllConsistent-run rest (step slice_stable call s) (AllConsistent-step call s a)

  -- From the empty store on, after any calls of `SetIPForMAC`, `Update`, `BindIdentityByMAC`,
  -- `SetStatusByMACChanged`, `RemoveByMAC` and `Remove`, an entry found by its IP is online by its
  -- flag exactly if it is by its status, and its copy of that agrees.
  pub get-IsConsistent :
      (calls : List (Call M)) (ip : Text) (ds : DeviceStats M)
      → get ip (run slice_stable calls new_store) ≡ some ds
      → IsConsistent ds
  unfolding get
  get-IsConsistent calls ip ds e =
      let s = run slice_stable calls new_store in
      let a = AllConsistent-run calls new_store tt in
      let mac = or_empty (lookup ip s.index.by_ip) in
      let from : (lookup mac s.devices ≡ some ds) ⊎ (lookup (ip_key ip) s.devices ≡ some ds) =
        ground arith in
      elim from [
        | inl e ↦ AllValues-lookup IsConsistent mac s.devices ds e a
        | inr e ↦ AllValues-lookup IsConsistent (ip_key ip) s.devices ds e a
      ]
