-- ===== src/Model/Newtype.antt =====
-- crates/tossinvest-model/src/newtype.rs: validated texts.
use package.tossinvest_rust.Common.{
  String, ℕ, ◌+◌, ◌≤◌, ◌≡◌, Bool, true, false, not, ◌&&◌, ◌||◌, List, [], ◌∷◌, ltb, ◌==◌, length,
  if◌then◌else◌,
}
use package.tossinvest_rust.Common.Text.{codes, is_ascii_alphanumeric}
use package.tossinvest_rust.Model.Scalar.{Validated, valid, refused, invalid}

abbrev pub every : (ℕ → Bool) → List ℕ → Bool
every p [] = true
every p (c ∷ cs) = p c && every p cs

-- `str::len`: the bytes of the UTF-8 form.
unfoldable pub utf8_len : List ℕ → ℕ
utf8_len [] = 0
utf8_len (c ∷ cs) =
    (if ltb c 128 then 1 else if ltb c 2048 then 2 else if ltb c 65536 then 3 else 4) + utf8_len cs

abbrev pub is_blank : List ℕ → Bool
is_blank [] = true
is_blank (c ∷ cs) = false

unfoldable pub is_symbol_char : ℕ → Bool
is_symbol_char c = is_ascii_alphanumeric c || c == 46 || c == 45

unfoldable pub is_client_order_id_char : ℕ → Bool
is_client_order_id_char c = is_ascii_alphanumeric c || c == 45 || c == 95

unfoldable pub symbol_new : String → Validated String
unfolding is_symbol_char
symbol_new s =
    if is_blank (codes s) || not (every is_symbol_char (codes s))
    then refused (invalid "Symbol" s "must match ^[A-Za-z0-9.-]+$")
    else valid s

unfoldable pub client_order_id_new : String → Validated String
unfolding utf8_len is_client_order_id_char
client_order_id_new s =
    if is_blank (codes s)
      || ltb 36 (utf8_len (codes s))
      || not (every is_client_order_id_char (codes s))
    then refused (invalid "ClientOrderId" s "max 36 chars, ^[A-Za-z0-9-_]+$")
    else valid s

abbrev Acceptable : String → Type 0
Acceptable t =
    (1 ≤ length (codes t))
    × (length (codes t) ≤ 36)
    × (every is_client_order_id_char (codes t) ≡ true)
