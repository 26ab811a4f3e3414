-- ===== src/Qr/Escapes.antt =====
-- Escaping and its inverse.
use nm_daemon.Base.{
  ℕ, Bool, true, false, not, ◌||◌, ◌≡◌, ◌∙◌, refl, [], ◌∷◌, ◌++◌, append_assoc, append-nil, arith,
  ◌==◌, All, nat_eq,
}
use nm_daemon.Base.Text.{Text}
use nm_daemon.Qr.{escape_char, wifi_qr_value, unquote, decode, unescape}

-- A character that the reader takes as it stands, wherever it comes.
abbrev pub is_plain : ℕ → Bool
is_plain c = not (c == b'\\' || c == b';' || c == b'"')

abbrev pub Plain : Text → Type 0
Plain = All (λ c. is_plain c ≡ true)

decode-escape_char :
    (c : ℕ) (rest out : Text)
    → decode (escape_char c ++ rest) out false ≡ decode rest (out ++ c ∷ []) false
unfolding decode
decode-escape_char c rest out = ground arith

decode-value : (s out : Text) → decode (wifi_qr_value s) out false ≡ out ++ s
unfolding wifi_qr_value
decode-value [] out = unfold decode in rw append-nil
decode-value (c ∷ s) out =
    decode-escape_char c (wifi_qr_value s) out
    ∙ decode-value s (out ++ c ∷ [])
    ∙ append_assoc out (c ∷ []) s

-- Unescaping undoes escaping, for every text.
pub unescape-value : (s : Text) → unescape (wifi_qr_value s) ≡ s
unfolding unescape
unescape-value s = decode-value s []

-- Escaped text never looks quoted.
pub unquote-value : (s : Text) → unquote (wifi_qr_value s) ≡ wifi_qr_value s
unfolding unquote wifi_qr_value
unquote-value [] = refl
unquote-value (c ∷ s) = ground arith

decode-Plain : (s out : Text) → Plain s → decode s out false ≡ out ++ s
unfolding decode
decode-Plain [] out h = rw append-nil
decode-Plain (c ∷ s) out (p, h) =
    ground (arith, decode-Plain s (out ++ c ∷ []) h, append_assoc out (c ∷ []) s)

pub unescape-Plain : (s : Text) → Plain s → unescape s ≡ s
unfolding unescape
unescape-Plain s h = decode-Plain s [] h

pub unquote-Plain : (s : Text) → Plain s → unquote s ≡ s
unfolding unquote
unquote-Plain [] h = refl
unquote-Plain (c ∷ s) (p, h) = ground arith
