-- ===== src/Stats/Index/Preserved.antt =====
-- What assignments and removals preserve.
use wavecontrol.Prelude.{
  false, some, ◌≡◌, arith, Text, text_beq_iff, is_empty, nat_eq, int_eq, text_eq,
}
use wavecontrol.GoMap.{lookup, lookup-delete}
use wavecontrol.Stats.Index.{new_index, or_empty, unlink_mac, unlink_ip, Index}
use wavecontrol.Stats.Index.Linked.{is_at_iff, Linked, Assigns}

-- An assignment keeps the maps inverse to each other.
pub Linked-Assigns :
    (mac ip : Text) (ix new : Index)
    → is_empty mac ≡ false
    → Assigns mac ip ix new
    → Linked ix
    → Linked new
Linked-Assigns mac ip ix new present a h = record {
  sound = λ j m e. ground (
    arith,
    a.reverse j,
    a.forward m,
    h.sound j m,
    h.named j m,
    e,
    text_beq_iff mac m,
    text_beq_iff ip j,
    is_at_iff mac (lookup j ix.by_ip),
    is_at_iff ip (lookup m ix.by_mac),
  );
  complete = λ m j e more. ground (
    arith,
    a.reverse j,
    a.forward m,
    h.complete m j,
    e,
    more,
    text_beq_iff mac m,
    text_beq_iff ip j,
    is_at_iff mac (lookup j ix.by_ip),
    is_at_iff ip (lookup m ix.by_mac),
  );
  named = λ j m e. ground (arith, a.reverse j, h.named j m, e, present, text_beq_iff ip j);
}

pub new_index-Linked : Linked new_index
new_index-Linked =
    unfold lookup in
    record {
      sound = λ ip mac e. ground arith;
      complete = λ mac ip e more. ground arith;
      named = λ ip mac e. ground arith;
    }

pub unlink_mac-Linked : (mac : Text) (ix : Index) → Linked ix → Linked (unlink_mac mac ix)
unfolding unlink_mac
unlink_mac-Linked mac ix h =
    let ip = or_empty (lookup mac ix.by_mac) in
    record {
      sound = λ j m e. ground (
        arith,
        e,
        lookup-delete mac m ix.by_mac,
        lookup-delete ip j ix.by_ip,
        h.sound j m,
        h.named j m,
        text_beq_iff mac m,
        text_beq_iff ip j,
        is_at_iff mac (lookup ip ix.by_ip),
      );
      complete = λ m j e more. ground (
        arith,
        e,
        more,
        lookup-delete mac m ix.by_mac,
        lookup-delete ip j ix.by_ip,
        h.complete m j,
        text_beq_iff mac m,
        text_beq_iff ip j,
        is_at_iff mac (lookup ip ix.by_ip),
      );
      named = λ j m e. ground (arith, e, lookup-delete ip j ix.by_ip, h.named j m);
    }

pub unlink_ip-Linked :
    (ip mac : Text) (ix : Index)
    → lookup ip ix.by_ip ≡ some mac
    → Linked ix
    → Linked (unlink_ip ip mac ix)
unfolding unlink_ip
unlink_ip-Linked ip mac ix at h = record {
  sound = λ j m e. ground (
    arith,
    e,
    at,
    lookup-delete mac m ix.by_mac,
    lookup-delete ip j ix.by_ip,
    h.sound j m,
    h.sound ip m,
    text_beq_iff mac m,
    text_beq_iff ip j,
    is_at_iff ip (lookup mac ix.by_mac),
  );
  complete = λ m j e more. ground (
    arith,
    e,
    more,
    at,
    lookup-delete mac m ix.by_mac,
    lookup-delete ip j ix.by_ip,
    h.complete m j,
    h.sound ip mac,
    text_beq_iff mac m,
    text_beq_iff ip j,
    is_at_iff ip (lookup mac ix.by_mac),
  );
  named = λ j m e. ground (arith, e, lookup-delete ip j ix.by_ip, h.named j m);
}
