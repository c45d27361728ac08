-- ===== src/Netutil/Examples.antt =====
-- A device that answers on port 80 alone, and a network in which nothing answers later.
use wavecontrol.Prelude.{
  false, List, [], ◌∷◌, ◌≡◌, refl, arith, nat_beq, Text, codes, text_beq, pos, nat_eq, int_eq,
  text_eq,
}
use wavecontrol.GoMap.{lookup}
use wavecontrol.Netutil.{http, Dial, look, resolve_scheme, SchemeHint, answered}
use wavecontrol.Netutil.Stable.{resolve_scheme-stays}
use wavecontrol.Netutil.Overlap.{drop_at, step, run, State, Event, starts, stores}

abbrev plain : Dial
plain host port timeout = nat_beq port 80

abbrev silent : Dial
silent host port timeout = false

abbrev host : Text
host = codes "10.0.0.7"

abbrev no_hint : SchemeHint
no_hint = record { prefer_https = false; tls_pinned = false; timeout = pos 0 }

answer : (resolve_scheme plain 10 12 host no_hint []).1 ≡ http
unfolding resolve_scheme look lookup
answer = refl

-- Two calls for the host overlap with one for another host, and the first one stores at 10.
abbrev other : Text
other = codes "10.0.0.8"

abbrev both_probe : State
both_probe = record { cache = []; probing = (other, no_hint) ∷ (host, no_hint) ∷ [] }

both_probe_reached :
    run (starts 5 host no_hint ∷ starts 6 other no_hint ∷ []) (record { cache = []; probing = [] })
    ≡ both_probe
unfolding run step look lookup
both_probe_reached = refl

abbrev later_events : List Event
later_events = starts 20 host no_hint ∷ stores silent 30 0 ∷ starts 40 other no_hint ∷ []

first_host : text_beq other host ≡ false
unfolding text_beq
first_host = refl

resolve_scheme-stays_example :
    let after = run later_events (step (stores plain 10 1) both_probe) in
    look 1000 host no_hint after.cache ≡ (after.cache, answered http)
unfolding text_beq drop_at
resolve_scheme-stays_example =
    resolve_scheme-stays plain 10 1000 1 host no_hint no_hint both_probe later_events refl refl
      (first_host, tt) ((omega arith, refl), (tt, ((omega arith, refl), tt))) (omega arith) refl
