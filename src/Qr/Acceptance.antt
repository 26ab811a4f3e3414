-- ===== src/Qr/Acceptance.antt =====
-- What holds of every payload that is accepted.
use nm_daemon.Base.{
  ◌≤◌, ◌≡◌, refl, ◌∙◌, ◌⊎◌, inl, inr, true, Option, none, some, arith, length, all, or_else,
  option_filter, is_some, if◌then◌else◌, ok, [], Result-cases, Option-cases, nat_eq, list_eq, codes,
}
use nm_daemon.Base.Map.{lookup, remove, lookup-remove}
use nm_daemon.Base.Text.{Text, bytes_of, is_hex_digit}
use nm_daemon.Qr.{
  Fields, ParsedWifiQr, WifiQrAuth, open_auth, wpa, sae, wep, parse_auth, validate_password,
  validate_ssid_bytes, non_empty, is_wep, split_fields, read_fields, parse_wifi_qr, qr_body,
  ssid_hex, wep_key_type_for, is_true_flag,
}

-- A password that suits the authentication.
abbrev pub Suits : WifiQrAuth → Option Text → Type 0
Suits open_auth p = p ≡ none
Suits wpa none = ⊥
Suits wpa (some p) =
    ((8 ≤ length p) × (length p ≤ 63)) ⊎ ((length p ≡ 64) × (all is_hex_digit p ≡ true))
Suits sae none = ⊥
Suits sae (some p) =
    ((8 ≤ length p) × (length p ≤ 63)) ⊎ ((length p ≡ 64) × (all is_hex_digit p ≡ true))
Suits wep none = ⊥
Suits wep (some p) = (1 ≤ length p) × (length p ≤ 58)

pub record IsSound (q : ParsedWifiQr) : Type 0 where
  pub ssid_text : q.ssid_bytes ≡ bytes_of q.ssid
  pub ssid_min : 1 ≤ length q.ssid_bytes
  pub ssid_max : length q.ssid_bytes ≤ 32
  pub token : parse_auth q.auth_token ≡ ok q.auth
  pub suits : Suits q.auth q.password
  pub flag : q.has_password ≡ is_some q.password
  pub hex : q.ssid_hex ≡ ssid_hex q.ssid_bytes
  pub key_type :
      q.wep_key_type
      ≡ (if is_wep q.auth then some (wep_key_type_for (or_else q.password [])) else none)

-- What was read from the fields of the payload.
pub record IsRead (f : Fields) (q : ParsedWifiQr) : Type 0 where
  pub ssid : lookup (codes "S") f ≡ some q.ssid
  pub token : q.auth_token ≡ or_else (lookup (codes "T") f) []
  pub password : q.password ≡ option_filter non_empty (lookup (codes "P") f)
  pub hidden : q.hidden ≡ is_true_flag (lookup (codes "H") f)

validate_password-Suits :
    (a : WifiQrAuth) (p : Option Text) → validate_password a p ≡ ok tt → Suits a p
unfolding validate_password
validate_password-Suits open_auth none h = refl
validate_password-Suits open_auth (some p) h = ground arith
validate_password-Suits wpa none h = ground arith
validate_password-Suits wpa (some p) h = ground arith
validate_password-Suits sae none h = ground arith
validate_password-Suits sae (some p) h = ground arith
validate_password-Suits wep none h = ground arith
validate_password-Suits wep (some p) h = ground arith

read_fields-IsSound : (f : Fields) {q : ParsedWifiQr} → read_fields f ≡ ok q → IsSound q
unfolding read_fields validate_ssid_bytes
read_fields-IsSound f h =
    let rest = remove (codes "S") f in
    let token = or_else (lookup (codes "T") rest) [] in
    let p = option_filter non_empty (lookup (codes "P") (remove (codes "T") rest)) in
    elim (Option-cases (option_filter non_empty (lookup (codes "S") f))) [
      | inl e ↦ absurd (ground arith)
      | inr (s, e) ↦ elim (Result-cases (parse_auth token)) [
        | inl (a, pa) ↦ elim (Result-cases (validate_password a p)) [
          | inl (u, pv) ↦ ground (arith, validate_password-Suits a p)
          | inr (x, pv) ↦ absurd (ground arith)
        ]
        | inr (x, pa) ↦ absurd (ground arith)
      ]
    ]

read_fields-IsRead : (f : Fields) {q : ParsedWifiQr} → read_fields f ≡ ok q → IsRead f q
unfolding read_fields
read_fields-IsRead f h =
    let rest = remove (codes "S") f in
    let rest' = remove (codes "T") rest in
    let token = or_else (lookup (codes "T") rest) [] in
    let p = option_filter non_empty (lookup (codes "P") rest') in
    let t_left : lookup (codes "T") rest ≡ lookup (codes "T") f =
      lookup-remove (codes "S") (codes "T") f in
    let p_left : lookup (codes "P") rest' ≡ lookup (codes "P") f =
      lookup-remove (codes "T") (codes "P") rest ∙ lookup-remove (codes "S") (codes "P") f in
    let h_left : lookup (codes "H") (remove (codes "P") rest') ≡ lookup (codes "H") f =
      lookup-remove (codes "P") (codes "H") rest'
      ∙ lookup-remove (codes "T") (codes "H") rest
      ∙ lookup-remove (codes "S") (codes "H") f in
    elim (Option-cases (option_filter non_empty (lookup (codes "S") f))) [
      | inl e ↦ absurd (ground arith)
      | inr (s, e) ↦ elim (Result-cases (parse_auth token)) [
        | inl (a, pa) ↦ elim (Result-cases (validate_password a p)) [
          | inl (u, pv) ↦ ground arith
          | inr (x, pv) ↦ absurd (ground arith)
        ]
        | inr (x, pa) ↦ absurd (ground arith)
      ]
    ]

-- Every payload that parses has fields from which its SSID, token, password and hidden flag are read. It
-- names an SSID of 1 to 32 bytes, carries a password that suits its authentication (none for an
-- open network, 8 to 63 characters or 64 hexadecimal digits for WPA and SAE, 1 to 58 characters for
-- WEP), and its bytes, its hexadecimal SSID, its password flag and its WEP key type are those of
-- the SSID and the password.
pub parse-IsSound :
    (payload : Text) {q : ParsedWifiQr}
    → parse_wifi_qr payload ≡ ok q
    → (b : Text) × (f : Fields) × (qr_body payload ≡ some b)
      × (split_fields b ≡ ok f)
      × IsRead f q
      × IsSound q
unfolding parse_wifi_qr
parse-IsSound payload h = elim (Option-cases (qr_body payload)) [
  | inl e ↦ absurd (ground arith)
  | inr (b, e) ↦ elim (Result-cases (split_fields b)) [
    | inl (f, k) ↦
        let read : read_fields f ≡ ok _ = ground arith in
        (b, f, e, k, read_fields-IsRead f read, read_fields-IsSound f read)
    | inr (x, k) ↦ absurd (ground arith)
  ]
]
