-- ===== src/Qr.antt =====
-- src/qr.rs: Wi-Fi QR payloads, written and read. Text is its list of code points. The QR symbol
-- itself is drawn by a crate, which is a parameter of `render_share`.
mod Examples
pub mod Escapes
pub mod Fields
pub mod RoundTrip
pub mod Acceptance
use nm_daemon.Base.{
  ℕ, ◌+◌, ◌-◌, ◌/◌, ◌%◌, Bool, true, false, not, ◌&&◌, ◌||◌, Option, none, some, List, [], ◌∷◌,
  ◌++◌, ltb, leb, ◌==◌, if◌then◌else◌, is_some, or_else, option_filter, length, all, Result, ok,
  err, ◌>>=◌, ◌>>◌, ensure, ok_or, nat_eq, list_eq, codes,
}
use nm_daemon.Base.Map.{Map, lookup, insert, remove}
use nm_daemon.Base.Text.{
  Text, strip_prefix, strip_last, split_once, ascii_upper, is_hex_digit, bytes_of,
}
use mathlib.Core.List.{map, flat_map, reverse}

abbrev pub max_passphrase_chars : ℕ
max_passphrase_chars = 63

abbrev pub raw_psk_chars : ℕ
raw_psk_chars = 64

abbrev pub max_wep_key_chars : ℕ
max_wep_key_chars = 58

abbrev pub is_special : ℕ → Bool
is_special c = c == b'\\' || c == b';' || c == b',' || c == b':' || c == b'"'

-- `wifi_qr_value`
abbrev pub escape_char : ℕ → Text
escape_char c = if is_special c then b'\\' ∷ c ∷ [] else c ∷ []

unfoldable pub wifi_qr_value : Text → Text
wifi_qr_value [] = []
wifi_qr_value (c ∷ s) = escape_char c ++ wifi_qr_value s

abbrev password_part : Option Text → Text
password_part none = []
password_part (some p) = codes ";P:" ++ wifi_qr_value p

abbrev hidden_part : Bool → Text
hidden_part hidden = if hidden then codes ";H:true" else []

unfoldable pub wifi_qr_payload : Text → Text → Option Text → Bool → Text
wifi_qr_payload auth_type ssid password hidden =
    codes "WIFI:T:"
    ++ (auth_type
        ++ (codes ";S:"
            ++ (wifi_qr_value ssid
                ++ (password_part password ++ (hidden_part hidden ++ codes ";;")))))

pub data WifiQrAuth : Type 0 where
  open_auth wpa sae wep : WifiQrAuth

pub data WepKeyType : Type 0 where
  key phrase : WepKeyType

pub record ParsedWifiQr : Type 0 where
  pub ssid : Text
  pub ssid_bytes : List ℕ
  pub ssid_hex : Text
  pub auth : WifiQrAuth
  pub auth_token : Text
  pub hidden : Bool
  pub has_password : Bool
  pub password : Option Text
  pub wep_key_type : Option WepKeyType

-- The messages of `qr_error`, and the field that each names.
pub data QrError : Type 0 where
  not_wifi dangling_escape no_key : QrError  -- payload
  no_ssid ssid_length : QrError  -- S
  enterprise unsupported_auth : QrError  -- T
  open_with_password no_password wpa_length wep_length : QrError  -- P
  too_large render_failed : QrError  -- `render_share`

-- `WifiQrAuth::key_management_hint`
pub key_management_hint : WifiQrAuth → Option Text
key_management_hint open_auth = none
key_management_hint wpa = some (codes "wpa-psk")
key_management_hint sae = some (codes "sae")
key_management_hint wep = some (codes "wep")

-- The length of the run of backslashes at the end: `chars().rev().take_while(..).count()`.
abbrev pub leading_backslashes : Text → ℕ
leading_backslashes [] = 0
leading_backslashes (c ∷ s) = if c == b'\\' then 1 + leading_backslashes s else 0

abbrev unquoted : Text → Option Text
unquoted value = elim (strip_prefix (b'"' ∷ []) value) [
  | none ↦ none
  | some s ↦ option_filter (λ v. leading_backslashes (reverse v) % 2 == 0) (strip_last b'"' s)
]

unfoldable pub unquote : Text → Text
unquote value = or_else (unquoted value) value

-- The loop of `unescape`: the text decoded so far and whether an escape is pending.
unfoldable pub decode : Text → Text → Bool → Text
decode [] decoded escaped = decoded
decode (c ∷ s) decoded escaped =
    let skip = decode s decoded true in
    let push = decode s (decoded ++ c ∷ []) false in
    if c == b'\\' && not escaped then skip else push

unfoldable pub unescape : Text → Text
unescape value = decode value [] false

abbrev pub Fields : Type 0
Fields = Map Text Text

unfoldable pub insert_field : Fields → Text → Result QrError Fields
insert_field fields [] = ok fields
insert_field fields (c ∷ s) = elim (split_once b':' (c ∷ s)) [
  | none ↦ err no_key
  | some (k, v) ↦ ok (insert (unescape k) (unescape (unquote v)) fields)
]

-- The loop of `split_fields`: `current` is the slice from `start` to the present index.
unfoldable pub split_loop : Fields → Text → Bool → Text → Result QrError Fields
split_loop fields current true [] = err dangling_escape
split_loop fields current false [] = insert_field fields current
split_loop fields current true (c ∷ s) = split_loop fields (current ++ c ∷ []) false s
split_loop fields current false (c ∷ s) = elim (c == b'\\') [
  | true ↦ split_loop fields (current ++ c ∷ []) true s
  | false ↦ elim (c == b';') [
    | true ↦ insert_field fields current >>= λ fields'. split_loop fields' [] false s
    | false ↦ split_loop fields (current ++ c ∷ []) false s
  ]
]

unfoldable pub split_fields : Text → Result QrError Fields
split_fields body = split_loop [] [] false body

abbrev pub auth_of_upper : Text → Result QrError WifiQrAuth
auth_of_upper t =
    if t == [] || t == codes "NOPASS"
    then ok open_auth
    else if t == codes "WPA2-EAP"
    then err enterprise
    else if t == codes "WPA" || t == codes "WPA2"
    then ok wpa
    else if t == codes "SAE" || t == codes "WPA3"
    then ok sae
    else if t == codes "WEP"
    then ok wep
    else err unsupported_auth

unfoldable pub parse_auth : Text → Result QrError WifiQrAuth
parse_auth token = auth_of_upper (map ascii_upper token)

abbrev wpa_password_ok : Text → Bool
wpa_password_ok p =
    (leb 8 (length p) && leb (length p) max_passphrase_chars)
    || (length p == raw_psk_chars && all is_hex_digit p)

unfoldable pub validate_password : WifiQrAuth → Option Text → Result QrError (Unit {0})
validate_password open_auth none = ok tt
validate_password open_auth (some p) = err open_with_password
validate_password wpa none = err no_password
validate_password wpa (some p) = ensure (wpa_password_ok p) wpa_length
validate_password sae none = err no_password
validate_password sae (some p) = ensure (wpa_password_ok p) wpa_length
validate_password wep none = err no_password
validate_password wep (some p) =
    ensure (leb 1 (length p) && leb (length p) max_wep_key_chars) wep_length

unfoldable pub wep_key_type_for : Text → WepKeyType
wep_key_type_for p =
    let n = length p in
    if (all is_hex_digit p && (n == 10 || n == 26 || n == 32 || n == 58))
      || (n == 5 || n == 13 || n == 16)
    then key
    else phrase

-- `validate_ssid_bytes` and `ssid_hex` of src/model.rs.
unfoldable pub validate_ssid_bytes : List ℕ → Bool
validate_ssid_bytes bytes = not (length bytes == 0 || ltb 32 (length bytes))

abbrev hex_digit : ℕ → ℕ
hex_digit n = if ltb n 10 then b'0' + n else b'a' + (n - 10)

unfoldable pub ssid_hex : List ℕ → Text
ssid_hex [] = []
ssid_hex (b ∷ bs) = hex_digit (b / 16) ∷ hex_digit (b % 16) ∷ ssid_hex bs

abbrev pub is_true_flag : Option Text → Bool
is_true_flag none = false
is_true_flag (some v) =
    v == codes "true" || v == codes "TRUE" || v == codes "True" || v == codes "1"

abbrev pub is_wep : WifiQrAuth → Bool
is_wep wep = true
is_wep _ = false

abbrev pub non_empty : Text → Bool
non_empty [] = false
non_empty (c ∷ s) = true

-- `parse_wifi_qr` after the fields are split.
unfoldable pub read_fields : Fields → Result QrError ParsedWifiQr
read_fields fields = do
  ssid ← ok_or (option_filter non_empty (lookup (codes "S") fields)) no_ssid
  ensure (validate_ssid_bytes (bytes_of ssid)) ssid_length
  let rest = remove (codes "S") fields
  let auth_token = or_else (lookup (codes "T") rest) []
  auth ← parse_auth auth_token
  let rest' = remove (codes "T") rest
  let password = option_filter non_empty (lookup (codes "P") rest')
  validate_password auth password
  ok (record {
    ssid = ssid;
    ssid_bytes = bytes_of ssid;
    ssid_hex = ssid_hex (bytes_of ssid);
    auth = auth;
    auth_token = auth_token;
    hidden = is_true_flag (lookup (codes "H") (remove (codes "P") rest'));
    has_password = is_some password;
    password = password;
    wep_key_type = if is_wep auth then some (wep_key_type_for (or_else password [])) else none;
  })

abbrev qr_body : Text → Option Text
qr_body payload = elim (strip_prefix (codes "WIFI:") payload) [
  | some body ↦ some body
  | none ↦ strip_prefix (codes "wifi:") payload
]

unfoldable pub parse_wifi_qr : Text → Result QrError ParsedWifiQr
parse_wifi_qr payload = do
  body ← ok_or (qr_body payload) not_wifi
  fields ← split_fields body
  read_fields fields

-- `render_share` over the crate that draws the symbol.
unfoldable pub render_share : (Text → Option Text) → Text → Result QrError Text
render_share draw payload = do
  ensure (leb (length (bytes_of payload)) 1024) too_large
  parsed ← parse_wifi_qr payload
  ok_or (draw payload) render_failed
