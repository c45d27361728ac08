-- ===== src/Stats/Index/Linked.antt =====
-- The two maps of the index stay inverse to each other.
use wavecontrol.Prelude.{
  true, false, ◌&&◌, not, [], ◌∷◌, ◌↔◌, Option, none, some, ◌≡◌, refl, ap, ◌∙◌, arith,
  if◌then◌else◌, ◌==◌, Text, text_beq_iff, is_empty, nat_eq, int_eq, text_eq,
}
use wavecontrol.GoMap.{key_refl, lookup, lookup-insert, lookup-delete}
use wavecontrol.Stats.Index.{or_empty, is_at, clear_owner, clear_reverse, link, relink, Index}

-- Each IP that is not empty and its MAC address name each other.
pub record Linked (ix : Index) : Type 0 where
  pub sound : (ip mac : Text) → lookup ip ix.by_ip ≡ some mac → lookup mac ix.by_mac ≡ some ip
  pub complete :
      (mac ip : Text)
      → lookup mac ix.by_mac ≡ some ip
      → is_empty ip ≡ false
      → lookup ip ix.by_ip ≡ some mac
  pub named :
      (ip mac : Text)
      → lookup ip ix.by_ip ≡ some mac
      → (is_empty ip ≡ false) × (is_empty mac ≡ false)

-- What becomes of another MAC address's IP when that is assigned anew, and of another IP's MAC
-- address.
abbrev pub release : Text → Option Text → Option Text
release ip held = if is_at ip held then some [] else held

abbrev pub forget : Text → Option Text → Option Text
forget mac holder = if is_at mac holder then none else holder

pub is_at_iff : (t : Text) (o : Option Text) → (is_at t o ≡ true) ↔ (o ≡ some t)
is_at_iff t none = (λ h. ground arith, λ h. ground arith)
is_at_iff t (some v) =
    (λ h. ground (arith, text_beq_iff v t), λ h. ground (arith, text_beq_iff v t))

empty_iff : (t : Text) → (is_empty t ≡ true) ↔ (t ≡ [])
empty_iff [] = (λ h. refl, λ h. refl)
empty_iff (c ∷ t) = (λ h. ground arith, λ h. ground arith)

-- The new index gives the IP to the MAC address and changes nothing else but what that displaces.
pub record Assigns (mac ip : Text) (ix new : Index) : Type 0 where
  pub forward :
      (q : Text)
      → lookup q new.by_mac ≡ (if mac == q then some ip else release ip (lookup q ix.by_mac))
  pub reverse :
      (j : Text)
      → lookup j new.by_ip
        ≡ (if not (is_empty ip) && ip == j then some mac else forget mac (lookup j ix.by_ip))

module _ (mac ip : Text) (ix : Index) (h : Linked ix) where
  owner-forward :
      (q : Text)
      → lookup q (clear_owner mac ip ix).by_mac
        ≡ (if mac == q then lookup q ix.by_mac else release ip (lookup q ix.by_mac))
  unfolding clear_owner
  owner-forward q =
      let other = or_empty (lookup ip ix.by_ip) in
      ground (
        arith,
        lookup-insert other q [] ix.by_mac,
        h.complete q ip,
        h.named ip q,
        text_beq_iff mac q,
        text_beq_iff other q,
        text_beq_iff other mac,
        is_at_iff ip (lookup q ix.by_mac),
        is_at_iff ip (lookup other ix.by_mac),
        empty_iff ip,
        empty_iff other,
      )

  reverse-reverse :
      (j : Text)
      → lookup j (clear_reverse mac ip ix).by_ip
        ≡ (if ip == j then lookup j ix.by_ip else forget mac (lookup j ix.by_ip))
  unfolding clear_reverse
  reverse-reverse j =
      let old = or_empty (lookup mac ix.by_mac) in
      ground (
        arith,
        lookup-delete old j ix.by_ip,
        h.sound j mac,
        h.named j mac,
        text_beq_iff ip j,
        text_beq_iff old j,
        text_beq_iff old ip,
        is_at_iff mac (lookup j ix.by_ip),
        is_at_iff mac (lookup old ix.by_ip),
        empty_iff old,
      )

reverse-keeps : (mac ip : Text) (ix : Index) → (clear_reverse mac ip ix).by_mac ≡ ix.by_mac
unfolding clear_reverse
reverse-keeps mac ip ix = ground arith

owner-keeps : (mac ip : Text) (ix : Index) → (clear_owner mac ip ix).by_ip ≡ ix.by_ip
unfolding clear_owner
owner-keeps mac ip ix = ground arith

reverse_same :
    (mac ip : Text) (ix other : Index)
    → lookup mac other.by_mac ≡ lookup mac ix.by_mac
    → other.by_ip ≡ ix.by_ip
    → (clear_reverse mac ip other).by_ip ≡ (clear_reverse mac ip ix).by_ip
unfolding clear_reverse
reverse_same mac ip ix other e d = rw (e, d) (ground arith)

owner_same :
    (mac ip : Text) (ix other : Index)
    → lookup ip other.by_ip ≡ lookup ip ix.by_ip
    → other.by_mac ≡ ix.by_mac
    → (clear_owner mac ip other).by_mac ≡ (clear_owner mac ip ix).by_mac
unfolding clear_owner
owner_same mac ip ix other e d = rw (e, d) (ground arith)

module _ (mac ip : Text) (ix : Index) (h : Linked ix) where
  pub link-Assigns : Assigns mac ip ix (link mac ip ix)
  unfolding link
  link-Assigns =
      let owned = clear_owner mac ip ix in
      let unchanged : lookup mac owned.by_mac ≡ lookup mac ix.by_mac =
        owner-forward mac ip ix h mac ∙ rw (key_refl mac) in
      let z = reverse_same mac ip ix owned unchanged (owner-keeps mac ip ix) in
      record {
        forward = λ q.
            rw
              (
                lookup-insert mac q ip (clear_reverse mac ip owned).by_mac,
                reverse-keeps mac ip owned,
                owner-forward mac ip ix h q,
              )
              (ground arith);
        reverse = λ j. ground (
          arith,
          lookup-insert ip j mac (clear_reverse mac ip owned).by_ip,
          ap (λ m. lookup j m) z,
          reverse-reverse mac ip ix h j,
          h.named j mac,
          empty_iff ip,
          text_beq_iff ip j,
          is_at_iff mac (lookup j ix.by_ip),
        );
      }

  pub relink-Assigns : Assigns mac ip ix (relink mac ip ix)
  unfolding relink
  relink-Assigns =
      let kept = clear_reverse mac ip ix in
      let unchanged : lookup ip kept.by_ip ≡ lookup ip ix.by_ip =
        reverse-reverse mac ip ix h ip ∙ rw (key_refl ip) in
      let z = owner_same mac ip ix kept unchanged (reverse-keeps mac ip ix) in
      let base = if is_empty ip then kept else clear_owner mac ip kept in
      record {
        forward = λ q. ground (
          arith,
          lookup-insert mac q ip base.by_mac,
          ap (λ m. lookup q m) z,
          ap (λ m. lookup q m) (reverse-keeps mac ip ix),
          owner-forward mac ip ix h q,
          empty_iff ip,
          is_at_iff ip (lookup q ix.by_mac),
        );
        reverse = λ j. ground (
          arith,
          lookup-insert ip j mac base.by_ip,
          ap (λ m. lookup j m) (owner-keeps mac ip kept),
          reverse-reverse mac ip ix h j,
          h.named j mac,
          empty_iff ip,
          text_beq_iff ip j,
          is_at_iff mac (lookup j ix.by_ip),
        );
      }
