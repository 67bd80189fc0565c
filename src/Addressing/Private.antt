-- ===== src/Addressing/Private.antt =====
-- What `isPrivateIpv4` of src/main/connectivity/NetworkAddressing.ts makes of the addresses that are
-- written the usual way, and of what stands behind them.
use istream.Prelude.{
  ℕ, Option, String, text_append, Bool, true, ◌&&◌, ◌||◌, not, some, List, [], ◌∷◌, map, leb, ◌==◌,
  ◌≡◌, refl, ap, ◌∙◌, sym, arith, Bool-cases, inl, inr, str_eq, eq_iff,
}
use text.Mathlib.TextLemmas.{nil-append, cons-append}
use istream.Prelude.Texts.{is_digit, every, trim_start}
use istream.Prelude.Decimals.{to_decimal, digits, digit}
use istream.Addressing.{
  signed, unsigned, digit_run, parse_int, split_dots, push_front, is_private_ipv4,
}
use istream.Addressing.Quads.{
  numeral, no_digit, parse_int-numeral, every-numeral, numeral-nil, every-to_decimal,
}
use istream.Contracts.Diagnostics.{Number, int}

abbrev no_dot : ℕ → Bool
no_dot c = not (c == b'.')

split_dots-every : (s : String) → every no_dot s ≡ true → split_dots s ≡ s ∷ []
unfolding split_dots every push_front
split_dots-every String.[] h = refl
split_dots-every (String.◌∷◌ c s) h = ground (arith, split_dots-every s)

split_dots-append :
    (s rest : String)
    → every no_dot s ≡ true
    → split_dots (text_append s (String.◌∷◌ "." rest)) ≡ s ∷ split_dots rest
unfolding split_dots every push_front
split_dots-append String.[] rest h = rw (nil-append (String.◌∷◌ "." rest)) refl
split_dots-append (String.◌∷◌ c s) rest h =
    rw (cons-append c s (String.◌∷◌ "." rest)) (ground (arith, split_dots-append s rest))

-- Four numbers with points between them, and a text behind them.
abbrev pub quad : (a b c d : ℕ) → String → String
quad a b c d rest =
    numeral a
      (String.◌∷◌ "." (numeral b (String.◌∷◌ "." (numeral c (String.◌∷◌ "." (numeral d rest))))))

no_dot-digit : (c : ℕ) → is_digit c ≡ true → no_dot c ≡ true
no_dot-digit c h = ground arith

split_dots-numeral :
    (n : ℕ) (rest : String)
    → split_dots (numeral n (String.◌∷◌ "." rest)) ≡ to_decimal n ∷ split_dots rest
unfolding numeral
split_dots-numeral n rest =
    split_dots-append (to_decimal n) rest (every-to_decimal no_dot no_dot-digit n)

pub parse_int-to_decimal : (n : ℕ) → parse_int (to_decimal n) ≡ some (int n)
parse_int-to_decimal n = ap parse_int (sym (numeral-nil n)) ∙ parse_int-numeral n "" refl

-- What `isPrivateIpv4` reads of such an address.
parts-quad :
    (a b c d : ℕ) (rest : String)
    → every no_dot rest ≡ true
    → no_digit rest ≡ true
    → map parse_int (split_dots (quad a b c d rest))
      ≡ some (int a) ∷ some (int b) ∷ some (int c) ∷ some (int d) ∷ []
parts-quad a b c d rest h k = simp (
  split_dots-numeral,
  split_dots-every (numeral d rest) (every-numeral no_dot no_dot-digit d rest h),
  parse_int-to_decimal,
  parse_int-numeral d rest k,
)

abbrev octets_of : String → List (Option Number)
octets_of address = map parse_int (split_dots address)

octets_of-loopback :
    octets_of "127.0.0.1" ≡ some (int 127) ∷ some (int 0) ∷ some (int 0) ∷ some (int 1) ∷ []
unfolding split_dots parse_int push_front signed unsigned digit_run trim_start
octets_of-loopback = refl

quad-loopback : quad 127 0 0 1 "" ≡ "127.0.0.1"
unfolding numeral to_decimal digits digit
quad-loopback = refl

abbrev is_loopback : (a b c d : ℕ) → Bool
is_loopback a b c d = a == 127 && b == 0 && c == 0 && d == 1

loopback-eq : (a b c d : ℕ) → is_loopback a b c d ≡ true → (a ≡ 127) × (b ≡ 0) × (c ≡ 0) × (d ≡ 1)
loopback-eq a b c d h = ground arith

quad-is_loopback : (a b c d : ℕ) → str_eq (quad a b c d "") "127.0.0.1" ≡ is_loopback a b c d
unfolding every
quad-is_loopback a b c d = elim (Bool-cases (str_eq (quad a b c d "") "127.0.0.1")) [
  | inl e ↦
      let same =
        sym (parts-quad a b c d "" refl refl)
        ∙ ap octets_of ((eq_iff (quad a b c d "") "127.0.0.1").0 e)
        ∙ octets_of-loopback in
      ground (arith, same, e)
  | inr e ↦ elim (Bool-cases (is_loopback a b c d)) [
    | inl own ↦
        let (ea, eb, ec, ed) = loopback-eq a b c d own in
        (eq_iff (quad a b c d "") "127.0.0.1").1 (rw (ea, eb, ec, ed) quad-loopback) ∙ sym own
    | inr own ↦ e ∙ sym own
  ]
]

-- The ranges that RFC 1918 reserves, and the loopback address.
abbrev pub is_private_quad : (a b c d : ℕ) → Bool
is_private_quad a b c d =
    leb a 255
    && leb b 255
    && leb c 255
    && leb d 255
    && (a == 10
        || (a == 172 && leb 16 b && leb b 31)
        || (a == 192 && b == 168)
        || is_loopback a b c d)

-- Four decimal numbers with points between them count as a private address exactly if each is at
-- most 255 and they lie in 10.0.0.0/8, 172.16.0.0/12 or 192.168.0.0/16 or are 127.0.0.1.
pub is_private_ipv4-quad :
    (a b c d : ℕ) → is_private_ipv4 (quad a b c d "") ≡ is_private_quad a b c d
unfolding is_private_ipv4 every
is_private_ipv4-quad a b c d =
    rw (quad-is_loopback a b c d, parts-quad a b c d "" refl refl) (ground arith)

-- An address of 10.0.0.0/8 counts as private whatever stands behind its last number, as long as that
-- holds no point and does not begin with a digit.
pub is_private_ipv4-tail :
    (b c d : ℕ) (rest : String)
    → every no_dot rest ≡ true
    → no_digit rest ≡ true
    → is_private_ipv4 (quad 10 b c d rest) ≡ (leb b 255 && leb c 255 && leb d 255)
unfolding is_private_ipv4
is_private_ipv4-tail b c d rest h k = rw (parts-quad 10 b c d rest h k) (ground arith)
