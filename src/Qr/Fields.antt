-- ===== src/Qr/Fields.antt =====
-- How `split_fields` walks the fields that `wifi_qr_payload` writes.
use nm_daemon.Base.{
  ℕ, Bool, true, false, ◌≡◌, ◌∙◌, refl, ap, Option, none, some, [], ◌∷◌, ◌++◌, append_assoc,
  append-nil, arith, ok, nat_eq, list_eq, codes,
}
use nm_daemon.Base.Map.{insert}
use nm_daemon.Base.Text.{Text}
use nm_daemon.Qr.{
  Fields, is_special, escape_char, wifi_qr_value, unquote, unescape, insert_field, split_loop,
  split_fields, password_part, hidden_part,
}
use nm_daemon.Qr.Escapes.{Plain, unescape-value, unquote-value, unescape-Plain, unquote-Plain}

split_loop-escape_char :
    (f : Fields) (cur rest : Text) (c : ℕ)
    → split_loop f cur false (escape_char c ++ rest)
      ≡ split_loop f (cur ++ escape_char c) false rest
unfolding split_loop
split_loop-escape_char f cur rest c = ground (arith, append_assoc cur (b'\\' ∷ []) (c ∷ []))

pub split_loop-value :
    (f : Fields) (cur s rest : Text)
    → split_loop f cur false (wifi_qr_value s ++ rest)
      ≡ split_loop f (cur ++ wifi_qr_value s) false rest
unfolding wifi_qr_value
split_loop-value f cur [] rest = rw append-nil
split_loop-value f cur (c ∷ s) rest = rw (append_assoc (escape_char c) (wifi_qr_value s) rest) (
    split_loop-escape_char f cur (wifi_qr_value s ++ rest) c
    ∙ split_loop-value f (cur ++ escape_char c) s rest
    ∙ ap (λ t. split_loop f t false rest) (append_assoc cur (escape_char c) (wifi_qr_value s)))

pub split_loop-Plain :
    (f : Fields) (cur s rest : Text)
    → Plain s
    → split_loop f cur false (s ++ rest) ≡ split_loop f (cur ++ s) false rest
unfolding split_loop
split_loop-Plain f cur [] rest h = rw append-nil
split_loop-Plain f cur (c ∷ s) rest (p, h) =
    ground (arith, split_loop-Plain f (cur ++ c ∷ []) s rest h, append_assoc cur (c ∷ []) s)

-- A field with a key of one character that needs no escape.
insert_field-key :
    (f : Fields) (k : ℕ) (v : Text)
    → is_special k ≡ false
    → insert_field f (k ∷ b':' ∷ v) ≡ ok (insert (k ∷ []) (unescape (unquote v)) f)
unfolding insert_field
insert_field-key f k v h = ground (arith, unescape-Plain (k ∷ []) (ground arith, tt))

pub insert_field-value :
    (f : Fields) (k : ℕ) (s : Text)
    → is_special k ≡ false
    → insert_field f (k ∷ b':' ∷ wifi_qr_value s) ≡ ok (insert (k ∷ []) s f)
insert_field-value f k s h =
    insert_field-key f k (wifi_qr_value s) h
    ∙ ap (λ v. ok (insert (k ∷ []) v f)) (ap unescape (unquote-value s) ∙ unescape-value s)

pub insert_field-Plain :
    (f : Fields) (k : ℕ) (s : Text)
    → is_special k ≡ false
    → Plain s
    → insert_field f (k ∷ b':' ∷ s) ≡ ok (insert (k ∷ []) s f)
insert_field-Plain f k s h p =
    insert_field-key f k s h
    ∙ ap (λ v. ok (insert (k ∷ []) v f)) (ap unescape (unquote-Plain s p) ∙ unescape-Plain s p)

-- The tables that the parts of a payload add up to.
abbrev pub with_hidden : Bool → Fields → Fields
with_hidden true f = insert (codes "H") (codes "true") f
with_hidden false f = f

abbrev pub with_password : Option Text → Fields → Fields
with_password none f = f
with_password (some p) f = insert (codes "P") p f

-- A semicolon ends the current field; so does the end of the text.
semicolon :
    (f g : Fields) (cur rest : Text)
    → insert_field f cur ≡ ok g
    → split_loop f cur false (b';' ∷ rest) ≡ split_loop g [] false rest
unfolding split_loop
semicolon f g cur rest e = rw (e, split_loop)

ending :
    (f g : Fields) (cur : Text)
    → insert_field f cur ≡ ok g
    → split_loop f cur false (codes ";;") ≡ ok g
ending f g cur e =
    semicolon f g cur (codes ";") e
    ∙ semicolon g g [] [] (unfold insert_field in refl)
    ∙ unfold split_loop insert_field in refl

hidden_tail :
    (f g : Fields) (cur : Text) (h : Bool)
    → insert_field f cur ≡ ok g
    → split_loop f cur false (hidden_part h ++ codes ";;") ≡ ok (with_hidden h g)
hidden_tail f g cur false e = ending f g cur e
hidden_tail f g cur true e =
    semicolon f g cur (codes "H:true;;") e
    ∙ split_loop-Plain g [] (codes "H:true") (codes ";;") (ground arith)
    ∙ ending g _ (codes "H:true") (insert_field-Plain g b'H' (codes "true") refl (ground arith))

password_tail :
    (f g : Fields) (cur : Text) (p : Option Text) (h : Bool)
    → insert_field f cur ≡ ok g
    → split_loop f cur false (password_part p ++ (hidden_part h ++ codes ";;"))
      ≡ ok (with_hidden h (with_password p g))
password_tail f g cur none h e = hidden_tail f g cur h e
password_tail f g cur (some p) h e =
    let rest = hidden_part h ++ codes ";;" in
    semicolon f g cur (codes "P:" ++ (wifi_qr_value p ++ rest)) e
    ∙ split_loop-Plain g [] (codes "P:") (wifi_qr_value p ++ rest) (ground arith)
    ∙ split_loop-value g (codes "P:") p rest
    ∙ hidden_tail g _ (codes "P:" ++ wifi_qr_value p) h (insert_field-value g b'P' p refl)

-- The fields of a payload are the token, the SSID, the password and the flag, as they were given.
pub split_fields-payload :
    (auth ssid : Text) (p : Option Text) (h : Bool)
    → Plain auth
    → split_fields (
        codes "T:"
        ++ (auth
            ++ (codes ";S:"
                ++ (wifi_qr_value ssid ++ (password_part p ++ (hidden_part h ++ codes ";;"))))))
      ≡ ok (with_hidden h (with_password p (insert (codes "S") ssid (insert (codes "T") auth []))))
unfolding split_fields
split_fields-payload auth ssid p h a =
    let tail = password_part p ++ (hidden_part h ++ codes ";;") in
    let rest = codes ";S:" ++ (wifi_qr_value ssid ++ tail) in
    let t = insert (codes "T") auth [] in
    split_loop-Plain [] [] (codes "T:") (auth ++ rest) (ground arith)
    ∙ split_loop-Plain [] (codes "T:") auth rest a
    ∙ semicolon [] t (codes "T:" ++ auth) (codes "S:" ++ (wifi_qr_value ssid ++ tail))
        (insert_field-Plain [] b'T' auth refl a)
    ∙ split_loop-Plain t [] (codes "S:") (wifi_qr_value ssid ++ tail) (ground arith)
    ∙ split_loop-value t (codes "S:") ssid tail
    ∙ password_tail t _ (codes "S:" ++ wifi_qr_value ssid) p h (insert_field-value t b'S' ssid refl)
