-- ===== src/Addressing.antt =====
-- src/main/connectivity/NetworkAddressing.ts: which texts are private IPv4 addresses, and what the
-- user's entry of another computer's address means. The interfaces are those that node:os lists.
pub mod Quads
pub mod Private
pub mod Endpoints
use Prim.Native.Char.{code}
use istream.Prelude.{
  ℕ, zero, suc, ◌+◌, ◌-◌, ◌*◌, String, Bool, true, false, ◌&&◌, ◌||◌, not, Option, none, some, List,
  [], ◌∷◌, map, ltb, leb, ◌==◌, str_eq, if◌then◌else◌, Result, ok, thrown, all,
}
use istream.Prelude.Texts.{is_digit, trim, trim_start}
use istream.Prelude.Decimals.{to_decimal}
use istream.Contracts.Diagnostics.{Number, int, negative}

-- The number that the digits at the start of a text show, behind the value `acc`.
unfoldable pub digit_run : ℕ → String → ℕ
digit_run acc String.[] = acc
digit_run acc (String.◌∷◌ c s) =
    let more = digit_run (acc * 10 + (code c - b'0')) s in if is_digit (code c) then more else acc

unfoldable pub unsigned : String → Option ℕ
unfolding digit_run
unsigned String.[] = none
unsigned (String.◌∷◌ c s) = if is_digit (code c) then some (digit_run 0 (String.◌∷◌ c s)) else none

-- Minus zero is 0 in every test of the source.
abbrev minus : Option ℕ → Option Number
minus none = none
minus (some zero) = some (int 0)
minus (some (suc n)) = some (negative n)

abbrev plus : Option ℕ → Option Number
plus none = none
plus (some n) = some (int n)

unfoldable pub signed : String → Option Number
unfolding unsigned
signed String.[] = none
signed (String.◌∷◌ c s) =
    if code c == b'-'
    then minus (unsigned s)
    else if code c == b'+'
    then plus (unsigned s)
    else plus (unsigned (String.◌∷◌ c s))

-- `Number.parseInt(text, 10)` with `NaN` as `none`, without the rounding of numbers from 2^53 on: the
-- source compares what it reads with bounds far below.
unfoldable pub parse_int : String → Option Number
unfolding signed trim_start
parse_int s = signed (trim_start s)

unfoldable pub push_front : Prim.Native.Char.Char → List String → List String
push_front c [] = String.◌∷◌ c "" ∷ []
push_front c (part ∷ parts) = String.◌∷◌ c part ∷ parts

-- `text.split('.')`
unfoldable pub split_dots : String → List String
unfolding push_front
split_dots String.[] = "" ∷ []
split_dots (String.◌∷◌ c s) =
    let parts = split_dots s in if code c == b'.' then "" ∷ parts else push_front c parts

abbrev pub is_octet : Option Number → Bool
is_octet (some (int n)) = leb n 255
is_octet _ = false

abbrev equals : Option Number → ℕ → Bool
equals (some (int n)) m = n == m
equals _ m = false

abbrev between : ℕ → Option Number → ℕ → Bool
between low (some (int n)) high = leb low n && leb n high
between low _ high = false

abbrev pub private_parts : Bool → List (Option Number) → Bool
private_parts loopback (a ∷ b ∷ c ∷ d ∷ []) =
    all is_octet (a ∷ b ∷ c ∷ d ∷ [])
    && (equals a 10
        || (equals a 172 && between 16 b 31)
        || (equals a 192 && equals b 168)
        || loopback)
private_parts loopback _ = false

unfoldable pub is_private_ipv4 : String → Bool
unfolding parse_int split_dots
is_private_ipv4 address =
    private_parts (str_eq address "127.0.0.1") (map parse_int (split_dots address))

-- An interface of the computer, as node:os describes it.
pub record NetworkInterface : Type 0 where
  pub family : String
  pub internal : Bool
  pub address : String

-- The addresses that `privateIpv4Addresses` collects before it drops repetitions and sorts.
unfoldable pub private_addresses : List NetworkInterface → List String
private_addresses [] = []
private_addresses (e ∷ es) =
    let rest = private_addresses es in
    if str_eq e.family "IPv4" && not e.internal && is_private_ipv4 e.address
    then e.address ∷ rest
    else rest

pub record ParsedEndpoint : Type 0 where
  pub host : String
  pub port : ℕ

-- The text before the first colon and the text behind it.
unfoldable pub cut_colon : String → Option (String × String)
cut_colon String.[] = none
cut_colon (String.◌∷◌ c s) =
    let rest = cut_colon s in
    if code c == b':'
    then some ("", s)
    else elim rest [ none ↦ none | some (before, after) ↦ some (String.◌∷◌ c before, after) ]

-- `hasPort`: the only colon separates the two.
unfoldable pub split_endpoint : ℕ → String → String × String
unfolding cut_colon
split_endpoint default_port trimmed = elim (cut_colon trimmed) [
  | none ↦ (trimmed, to_decimal default_port)
  | some (host, port) ↦ elim (cut_colon port) [
    | none ↦ (host, port)
    | some _ ↦ (trimmed, to_decimal default_port)
  ]
]

abbrev pub checked_port : String → Option Number → Result ParsedEndpoint
checked_port host (some (int port)) =
    if ltb port 1024 || ltb 65535 port
    then thrown "Control port must be between 1024 and 65535."
    else ok (record { host = host; port = port })
checked_port host _ = thrown "Control port must be between 1024 and 65535."

-- `EndpointParser.parse`
unfoldable pub parse : ℕ → String → Result ParsedEndpoint
unfolding trim split_endpoint
parse default_port value =
    let parts = split_endpoint default_port (trim value) in
    if not (is_private_ipv4 parts.0)
    then thrown "Enter a private IPv4 address on the same LAN."
    else checked_port parts.0 (parse_int parts.1)
