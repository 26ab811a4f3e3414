-- ===== src/Qr/RoundTrip.antt =====
-- What is written is read back.
use nm_daemon.Base.{
  ℕ, Bool, true, false, ◌≡◌, refl, sym, subst, inl, inr, Option, none, some, List, [], ◌∷◌, arith,
  ◌==◌, if◌then◌else◌, is_some, or_else, option_filter, any, All, ok, Bool-cases, list_beq_iff,
  nat_eq, list_eq, codes,
}
use mathlib.Core.List.{map}
use nm_daemon.Base.Map.{lookup, insert, remove}
use nm_daemon.Base.Text.{Text, ascii_upper, bytes_of}
use nm_daemon.Qr.{
  Fields, ParsedWifiQr, WifiQrAuth, open_auth, wpa, sae, wep, parse_auth, auth_of_upper,
  validate_password, validate_ssid_bytes, ssid_hex, wep_key_type_for, is_wep, non_empty,
  read_fields, parse_wifi_qr, wifi_qr_payload,
}
use nm_daemon.Qr.Escapes.{is_plain, Plain}
use nm_daemon.Qr.Fields.{with_hidden, with_password, split_fields-payload}

upper-plain : (c : ℕ) → is_plain (ascii_upper c) ≡ true → is_plain c ≡ true
upper-plain c h = ground arith

map_upper-Plain : (t : Text) → Plain (map ascii_upper t) → Plain t
map_upper-Plain [] h = tt
map_upper-Plain (c ∷ t) (p, h) = (upper-plain c p, map_upper-Plain t h)

abbrev tokens : List Text
tokens =
    [] ∷ codes "NOPASS" ∷ codes "WPA" ∷ codes "WPA2" ∷ codes "SAE" ∷ codes "WPA3" ∷ codes "WEP" ∷ []

any-Plain : (t : Text) (ls : List Text) → any (λ l. t == l) ls ≡ true → All Plain ls → Plain t
any-Plain t [] e h = ground arith
any-Plain t (l ∷ ls) e (p, h) = elim (Bool-cases (t == l)) [
  | inl q ↦ subst Plain (sym ((list_beq_iff t l).0 q)) p
  | inr q ↦ any-Plain t ls (ground arith) h
]

auth_of_upper-token :
    (t : Text) {a : WifiQrAuth} → auth_of_upper t ≡ ok a → any (λ l. t == l) tokens ≡ true
auth_of_upper-token t h = ground arith

-- The tokens that are accepted hold no character that the reader would take apart.
auth_of_upper-Plain : (t : Text) {a : WifiQrAuth} → auth_of_upper t ≡ ok a → Plain t
auth_of_upper-Plain t h = any-Plain t tokens (auth_of_upper-token t h) (ground arith)

pub parse_auth-Plain : (t : Text) {a : WifiQrAuth} → parse_auth t ≡ ok a → Plain t
unfolding parse_auth
parse_auth-Plain t h = map_upper-Plain t (auth_of_upper-Plain (map ascii_upper t) h)

-- The record that a reader makes of the parts of a payload.
abbrev pub parsed : Text → Text → WifiQrAuth → Option Text → Bool → ParsedWifiQr
parsed token ssid auth password hidden = record {
  ssid = ssid;
  ssid_bytes = bytes_of ssid;
  ssid_hex = ssid_hex (bytes_of ssid);
  auth = auth;
  auth_token = token;
  hidden = hidden;
  has_password = is_some password;
  password = password;
  wep_key_type = if is_wep auth then some (wep_key_type_for (or_else password [])) else none;
}

password_kept :
    (a : WifiQrAuth) (p : Option Text)
    → validate_password a p ≡ ok tt
    → option_filter non_empty p ≡ p
unfolding validate_password
password_kept a none h = refl
password_kept open_auth (some []) h = ground arith
password_kept wpa (some []) h = ground arith
password_kept sae (some []) h = ground arith
password_kept wep (some []) h = ground arith
password_kept a (some (c ∷ s)) h = refl

ssid_kept :
    (ssid : Text)
    → validate_ssid_bytes (bytes_of ssid) ≡ true
    → option_filter non_empty (some ssid) ≡ some ssid
unfolding validate_ssid_bytes
ssid_kept [] h = ground arith
ssid_kept (c ∷ s) h = refl

-- The table of a payload.
abbrev table : Text → Text → Option Text → Bool → Fields
table token ssid p h =
    with_hidden h (with_password p (insert (codes "S") ssid (insert (codes "T") token [])))

read_table :
    (token ssid : Text) (a : WifiQrAuth) (p : Option Text) (h : Bool)
    → validate_ssid_bytes (bytes_of ssid) ≡ true
    → parse_auth token ≡ ok a
    → validate_password a p ≡ ok tt
    → read_fields (table token ssid p h) ≡ ok (parsed token ssid a p h)
unfolding read_fields lookup insert remove
read_table token ssid a none false v t q = rw (ssid_kept ssid v, v, t, q)
read_table token ssid a none true v t q = rw (ssid_kept ssid v, v, t, q)
read_table token ssid a (some p) false v t q =
    rw (ssid_kept ssid v, v, t, password_kept a (some p) q, q)
read_table token ssid a (some p) true v t q =
    rw (ssid_kept ssid v, v, t, password_kept a (some p) q, q)

-- A payload written from a valid SSID of any characters, an accepted token in any case and a
-- password that suits it reads back as exactly those, with the hidden flag and the derived fields.
pub parse-payload :
    (token ssid : Text) (a : WifiQrAuth) (p : Option Text) (h : Bool)
    → validate_ssid_bytes (bytes_of ssid) ≡ true
    → parse_auth token ≡ ok a
    → validate_password a p ≡ ok tt
    → parse_wifi_qr (wifi_qr_payload token ssid p h) ≡ ok (parsed token ssid a p h)
unfolding parse_wifi_qr wifi_qr_payload
parse-payload token ssid a p h v t q =
    rw (split_fields-payload token ssid p h (parse_auth-Plain token t))
      (read_table token ssid a p h v t q)
