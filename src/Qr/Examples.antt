-- ===== src/Qr/Examples.antt =====
-- Payloads at concrete values.
use nm_daemon.Base.{
  ◌≡◌, refl, Bool, true, false, Option, none, some, [], ◌∷◌, ◌++◌, Result, ok, codes, list_eq,
  nat_eq,
}
use nm_daemon.Base.Map.{insert}
use nm_daemon.Base.Text.{Text}
use nm_daemon.Qr.{
  Fields, qr_body, wpa, wifi_qr_payload, wifi_qr_value, parse_wifi_qr, parse_auth,
  validate_password, validate_ssid_bytes, split_fields, password_part, hidden_part,
}
use nm_daemon.Qr.RoundTrip.{parse-payload, parsed}
use nm_daemon.Qr.Acceptance.{parse-IsSound, IsRead, IsSound}

abbrev ssid : Text
ssid = codes "a;b"

abbrev secret : Text
secret = codes "p:ss\\w0rd"

parse-payload_example :
    parse_wifi_qr (wifi_qr_payload (codes "WPA") ssid (some secret) true)
    ≡ ok (parsed (codes "WPA") ssid wpa (some secret) true)
unfolding validate_ssid_bytes parse_auth validate_password
parse-payload_example = parse-payload (codes "WPA") ssid wpa (some secret) true refl refl refl

parse-IsSound_example :
    let q = parsed (codes "WPA") (codes "ab") wpa (some (codes "password")) false in
    (b : Text) × (f : Fields) × (qr_body (codes "WIFI:T:WPA;S:ab;P:password;;") ≡ some b)
    × (split_fields b ≡ ok f)
    × IsRead f q
    × IsSound q
unfolding parse_wifi_qr split_fields nm_daemon.Qr.split_loop nm_daemon.Qr.insert_field
    nm_daemon.Qr.read_fields nm_daemon.Base.Map.lookup insert nm_daemon.Qr.unescape
    nm_daemon.Qr.decode nm_daemon.Qr.unquote validate_ssid_bytes parse_auth
    nm_daemon.Base.Map.remove validate_password
parse-IsSound_example = parse-IsSound (codes "WIFI:T:WPA;S:ab;P:password;;") refl
