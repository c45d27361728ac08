-- ===== src/Udebug/Host/Url.antt =====
-- The key that a whole URL has.
use wavecontrol.Prelude.{
  ℕ, Bool, true, false, ◌&&◌, ◌||◌, ◌∷◌, ◌++◌, some, ◌≡◌, refl, ap, ◌∙◌, arith, leb, nat_beq, All,
  All-append, All-imp, Text, codes, is_empty, to_lower, is_space, trim, trim_space, has_prefix,
  trim_prefix, before_any, last_index_byte, split_host_port, behind, before_any-append,
  last_index_byte-append, drop-append, trim_of_none, split_host_port-append, trim_space_of_none,
}
use wavecontrol.Udebug.Host.{
  ends_authority, is_bracket, without_port, host_of_authority, strip_scheme, normalize_host,
}

-- Letters, digits, dots and dashes: the bytes of a DNS name or of an IPv4 address.
abbrev pub is_name_byte : ℕ → Bool
is_name_byte c =
    leb b'a' c && leb c b'z'
    || leb b'A' c && leb c b'Z'
    || leb b'0' c && leb c b'9'
    || nat_beq c b'.'
    || nat_beq c b'-'

abbrev pub is_digit : ℕ → Bool
is_digit c = leb b'0' c && leb c b'9'

abbrev pub IsName : Text → Type 0
IsName = All (λ c. is_name_byte c ≡ true)

abbrev pub IsPort : Text → Type 0
IsPort = All (λ c. is_digit c ≡ true)

-- No white space.
abbrev pub IsSolid : Text → Type 0
IsSolid = All (λ c. is_space c ≡ false)

-- A name byte passes every test that `normalizeHost` makes.
record IsOrdinary (c : ℕ) : Type 0 where
  solid : is_space c ≡ false
  inside : ends_authority c ≡ false
  not_at : nat_beq c b'@' ≡ false
  not_colon : nat_beq c b':' ≡ false
  not_open : nat_beq c b'[' ≡ false
  not_close : nat_beq c b']' ≡ false
  unbracketed : is_bracket c ≡ false

IsOrdinary-name : (c : ℕ) → is_name_byte c ≡ true → IsOrdinary c
unfolding is_space ends_authority is_bracket
IsOrdinary-name c h = ground arith

IsOrdinary-digit : (c : ℕ) → is_digit c ≡ true → IsOrdinary c
unfolding is_space ends_authority is_bracket
IsOrdinary-digit c h = ground arith

IsOrdinary-names : (s : Text) → IsName s → All IsOrdinary s
IsOrdinary-names s = All-imp s IsOrdinary-name

IsOrdinary-digits : (s : Text) → IsPort s → All IsOrdinary s
IsOrdinary-digits s = All-imp s IsOrdinary-digit

colon_ordinary : (nat_beq b':' b'@' ≡ false) × (nat_beq b':' b'[' ≡ false)
colon_ordinary = (refl, refl)

host_port-Lacks :
    (b : ℕ) (name port : Text)
    → ((c : ℕ) → IsOrdinary c → nat_beq c b ≡ false)
    → nat_beq b':' b ≡ false
    → All IsOrdinary name
    → All IsOrdinary port
    → All (λ c. nat_beq c b ≡ false) (name ++ b':' ∷ port)
host_port-Lacks b name port f e h k =
    All-append (λ c. nat_beq c b ≡ false) name (b':' ∷ port) (All-imp name f h)
      (e, All-imp port f k)

host_of_authority-parts :
    (authority hp name : Text)
    → behind authority (last_index_byte b'@' authority) ≡ hp
    → split_host_port hp ≡ some name
    → trim is_bracket name ≡ name
    → trim_space name ≡ name
    → host_of_authority authority ≡ to_lower name
unfolding host_of_authority
host_of_authority-parts authority hp name e split unbracketed solid =
    ap (λ t. to_lower (trim_space (trim is_bracket (without_port t (split_host_port t))))) e
    ∙ ap (λ o. to_lower (trim_space (trim is_bracket (without_port hp o)))) split
    ∙ ap (λ t. to_lower (trim_space t)) unbracketed
    ∙ ap to_lower solid

-- The authority `user@name:port` has the name, in small letters, as its key.
host_of_authority-name :
    (user : Text) (c : ℕ) (name port : Text)
    → All IsOrdinary (c ∷ name)
    → All IsOrdinary port
    → host_of_authority (user ++ b'@' ∷ ((c ∷ name) ++ b':' ∷ port)) ≡ to_lower (c ∷ name)
host_of_authority-name user c name port h k =
    let hp = (c ∷ name) ++ b':' ∷ port in
    let split : split_host_port hp ≡ some (c ∷ name) =
      split_host_port-append c name port (All-imp (c ∷ name) (λ x o. o.not_colon) h)
        (All-imp port (λ x o. o.not_colon) k)
        (host_port-Lacks b'[' (c ∷ name) port (λ x o. o.not_open) refl h k)
        (host_port-Lacks b']' (c ∷ name) port (λ x o. o.not_close) refl h k) in
    host_of_authority-parts (user ++ b'@' ∷ hp) hp (c ∷ name)
      (rw
        (last_index_byte-append user b'@' hp
          (host_port-Lacks b'@' (c ∷ name) port (λ x o. o.not_at) refl h k))
        (drop-append user b'@' hp))
      split (trim_of_none is_bracket (c ∷ name) (All-imp (c ∷ name) (λ x o. o.unbracketed) h))
      (trim_space_of_none (c ∷ name) (All-imp (c ∷ name) (λ x o. o.solid) h))

abbrev pub https_url : Text → Text → Text → Text → Text
https_url user name port path =
    codes "https://" ++ ((user ++ b'@' ∷ (name ++ b':' ∷ port)) ++ b'/' ∷ path)

normalize_host-parts :
    (input stripped authority : Text)
    → trim_space input ≡ input
    → is_empty input ≡ false
    → strip_scheme input ≡ stripped
    → before_any ends_authority stripped ≡ authority
    → normalize_host input ≡ host_of_authority authority
unfolding normalize_host
normalize_host-parts input stripped authority solid more strip cut = rw (solid, more, strip, cut)

url-IsSolid :
    (user : Text) (c : ℕ) (name port path : Text)
    → IsSolid user
    → All IsOrdinary (c ∷ name)
    → All IsOrdinary port
    → IsSolid path
    → IsSolid (https_url user (c ∷ name) port path)
unfolding is_space
url-IsSolid user c name port path user_solid h k path_solid =
    let solid = λ (x : ℕ). is_space x ≡ false in
    All-append solid (codes "https://")
      ((user ++ b'@' ∷ ((c ∷ name) ++ b':' ∷ port)) ++ b'/' ∷ path)
      (refl, (refl, (refl, (refl, (refl, (refl, (refl, (refl, tt))))))))
      (All-append solid (user ++ b'@' ∷ ((c ∷ name) ++ b':' ∷ port)) (b'/' ∷ path)
        (All-append solid user (b'@' ∷ ((c ∷ name) ++ b':' ∷ port)) user_solid (
          refl,
          All-append solid (c ∷ name) (b':' ∷ port) (All-imp (c ∷ name) (λ x o. o.solid) h)
              (refl, All-imp port (λ x o. o.solid) k),
        ))
        (refl, path_solid))

-- The debug key of `https://user@name:port/path` is the name in small letters, whatever the
-- credentials, the port and the path are: credentials without `/`, `?`, `#` and white space, a
-- name of letters, digits, dots and dashes, a port of digits, and a path without white space.
pub normalize_host-https_url :
    (user : Text) (c : ℕ) (name port path : Text)
    → IsSolid user
    → All (λ x. ends_authority x ≡ false) user
    → IsName (c ∷ name)
    → IsPort port
    → IsSolid path
    → normalize_host (https_url user (c ∷ name) port path) ≡ to_lower (c ∷ name)
normalize_host-https_url user c name port path user_solid user_inside is_name is_port path_solid =
    let h = IsOrdinary-names (c ∷ name) is_name in
    let k = IsOrdinary-digits port is_port in
    let authority = user ++ b'@' ∷ ((c ∷ name) ++ b':' ∷ port) in
    normalize_host-parts (https_url user (c ∷ name) port path) (authority ++ b'/' ∷ path) authority
      (trim_space_of_none (https_url user (c ∷ name) port path)
        (url-IsSolid user c name port path user_solid h k path_solid))
      refl (unfold trim_prefix has_prefix in refl)
      (before_any-append ends_authority authority b'/' path
        (All-append (λ x. ends_authority x ≡ false) user (b'@' ∷ ((c ∷ name) ++ b':' ∷ port))
          user_inside
          (
            unfold ends_authority in refl,
            All-append (λ x. ends_authority x ≡ false) (c ∷ name) (b':' ∷ port)
                (All-imp (c ∷ name) (λ x o. o.inside) h)
                (unfold ends_authority in refl, All-imp port (λ x o. o.inside) k),
          ))
        (unfold ends_authority in refl))
    ∙ host_of_authority-name user c name port h k
