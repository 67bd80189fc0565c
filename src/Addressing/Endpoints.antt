-- ===== src/Addressing/Endpoints.antt =====
-- `EndpointParser` of src/main/connectivity/NetworkAddressing.ts: the entries it accepts.
use istream.Prelude.{
  ℕ, ◌≤◌, String, text_append, Bool, true, not, none, some, ◌==◌, ◌≡◌, refl, arith, ok, Option,
}
use text.Mathlib.TextLemmas.{nil-append, cons-append}
use istream.Prelude.Texts.{is_digit, every, trim_start, trim_end, trim, is_space}
use istream.Prelude.Decimals.{to_decimal}
use istream.Contracts.Diagnostics.{Number}
use istream.Addressing.{
  parse_int, is_private_ipv4, cut_colon, split_endpoint, parse, ParsedEndpoint, checked_port,
}
use istream.Addressing.Quads.{every-to_decimal}
use istream.Addressing.Private.{parse_int-to_decimal}

abbrev pub plain : ℕ → Bool
plain c = not (is_space c)

abbrev pub no_colon : ℕ → Bool
no_colon c = not (c == b':')

trim_start-plain : (s : String) → every plain s ≡ true → trim_start s ≡ s
unfolding trim_start every
trim_start-plain String.[] h = refl
trim_start-plain (String.◌∷◌ c s) h = ground arith

trim_end-plain : (s : String) → every plain s ≡ true → trim_end s ≡ s
unfolding trim_end every
trim_end-plain String.[] h = refl
trim_end-plain (String.◌∷◌ c s) h = ground (arith, trim_end-plain s)

trim-plain : (s : String) → every plain s ≡ true → trim s ≡ s
unfolding trim
trim-plain s h = rw (trim_start-plain s h) (trim_end-plain s h)

cut_colon-append :
    (s rest : String)
    → every no_colon s ≡ true
    → cut_colon (text_append s (String.◌∷◌ ":" rest)) ≡ some (s, rest)
unfolding cut_colon every
cut_colon-append String.[] rest h = rw (nil-append (String.◌∷◌ ":" rest)) refl
cut_colon-append (String.◌∷◌ c s) rest h =
    rw (cons-append c s (String.◌∷◌ ":" rest)) (ground (arith, cut_colon-append s rest))

cut_colon-none : (s : String) → every no_colon s ≡ true → cut_colon s ≡ none
unfolding cut_colon every
cut_colon-none String.[] h = refl
cut_colon-none (String.◌∷◌ c s) h = ground (arith, cut_colon-none s)

every-append :
    (q : ℕ → Bool) (s t : String)
    → every q s ≡ true
    → every q t ≡ true
    → every q (text_append s t) ≡ true
unfolding every
every-append q String.[] t h k = rw (nil-append t) k
every-append q (String.◌∷◌ c s) t h k = rw (cons-append c s t) (ground (arith, every-append q s t))

plain-digit : (c : ℕ) → is_digit c ≡ true → plain c ≡ true
plain-digit c h = ground arith

no_colon-digit : (c : ℕ) → is_digit c ≡ true → no_colon c ≡ true
no_colon-digit c h = ground arith

-- The entry that names an endpoint with its port.
abbrev pub print_endpoint : ParsedEndpoint → String
print_endpoint e = text_append e.host (String.◌∷◌ ":" (to_decimal e.port))

plain-print_endpoint :
    (e : ParsedEndpoint) → every plain e.host ≡ true → every plain (print_endpoint e) ≡ true
unfolding every
plain-print_endpoint e h =
    every-append plain e.host (String.◌∷◌ ":" (to_decimal e.port)) h
      (every-to_decimal plain plain-digit e.port)

split_endpoint-print_endpoint :
    (default_port : ℕ) (e : ParsedEndpoint)
    → every no_colon e.host ≡ true
    → split_endpoint default_port (print_endpoint e) ≡ (e.host, to_decimal e.port)
unfolding split_endpoint
split_endpoint-print_endpoint default_port e h =
    rw
      (
        split_endpoint,
        cut_colon-append e.host (to_decimal e.port) h,
        cut_colon-none (to_decimal e.port) (every-to_decimal no_colon no_colon-digit e.port),
      )
      refl

split_endpoint-host :
    (default_port : ℕ) (host : String)
    → every no_colon host ≡ true
    → split_endpoint default_port host ≡ (host, to_decimal default_port)
unfolding split_endpoint
split_endpoint-host default_port host h = rw (split_endpoint, cut_colon-none host h) refl

-- A private address without white space and colons is read back from its entry with a port from 1024
-- to 65535, and alone it is read with the default port if that lies in these bounds.
pub parse-print_endpoint :
    (default_port : ℕ) (e : ParsedEndpoint)
    → is_private_ipv4 e.host ≡ true
    → every plain e.host ≡ true
    → every no_colon e.host ≡ true
    → 1024 ≤ e.port
    → e.port ≤ 65535
    → 1024 ≤ default_port
    → default_port ≤ 65535
    → (parse default_port (print_endpoint e) ≡ ok e)
      × (parse default_port e.host ≡ ok (record { host = e.host; port = default_port }))
unfolding parse
parse-print_endpoint default_port e private chars colons low high low_default high_default = (
  rw
      (
        trim-plain (print_endpoint e) (plain-print_endpoint e chars),
        split_endpoint-print_endpoint default_port e colons,
        private,
        parse_int-to_decimal e.port,
      )
      (ground arith),
  rw
      (
        trim-plain e.host chars,
        split_endpoint-host default_port e.host colons,
        private,
        parse_int-to_decimal default_port,
      )
      (ground arith),
)

checked_port-bounds :
    (host : String) (n : Option Number) (e : ParsedEndpoint)
    → checked_port host n ≡ ok e
    → (e.host ≡ host) × (1024 ≤ e.port) × (e.port ≤ 65535)
checked_port-bounds host n e h = ground arith

-- An entry that is accepted names a private address and a port from 1024 to 65535.
parse-bounds :
    (default_port : ℕ) (value : String) (e : ParsedEndpoint)
    → parse default_port value ≡ ok e
    → (is_private_ipv4 e.host ≡ true) × (1024 ≤ e.port) × (e.port ≤ 65535)
unfolding parse
parse-bounds default_port value e h =
    let parts = split_endpoint default_port (trim value) in
    ground (arith, checked_port-bounds parts.0 (parse_int parts.1) e)
