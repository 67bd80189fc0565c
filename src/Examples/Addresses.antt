-- ===== src/Examples/Addresses.antt =====
-- Addresses as a user enters them, and what the theorems on addresses state of them.
use istream.Prelude.{true, false, ◌≡◌, refl, ok, thrown, arith, [], ◌∷◌}
use istream.Prelude.Texts.{every, trim, trim_start, trim_end}
use istream.Addressing.{
  is_private_ipv4, parse, ParsedEndpoint, split_dots, parse_int, signed, unsigned, digit_run,
  push_front, split_endpoint, cut_colon, private_addresses,
}
use istream.Addressing.Private.{quad, is_private_ipv4-quad, is_private_ipv4-tail}
use istream.Addressing.Endpoints.{parse-print_endpoint, print_endpoint}

is_private_ipv4-quad_example : is_private_ipv4 (quad 172 31 0 7 "") ≡ true
is_private_ipv4-quad_example = is_private_ipv4-quad 172 31 0 7

more_behind : is_private_ipv4 (quad 10 0 0 1 " and more") ≡ true
unfolding every
more_behind = is_private_ipv4-tail 0 0 1 " and more" refl refl

desk : ParsedEndpoint
desk = record { host = "192.168.1.20"; port = 50000 }

parse-print_endpoint_example :
    (parse 47778 (print_endpoint desk) ≡ ok desk)
    × (parse 47778 "192.168.1.20" ≡ ok (record { host = "192.168.1.20"; port = 47778 }))
unfolding every is_private_ipv4 split_dots parse_int signed unsigned digit_run push_front trim_start
    desk
parse-print_endpoint_example =
    parse-print_endpoint 47778 desk refl refl refl (omega arith) (omega arith) (omega arith)
      (omega arith)

refuses_public : parse 47778 "8.8.8.8" ≡ thrown "Enter a private IPv4 address on the same LAN."
unfolding parse trim trim_start trim_end split_endpoint cut_colon is_private_ipv4 split_dots
    parse_int signed unsigned digit_run push_front
refuses_public = refl

interfaces_kept :
    private_addresses (
      record { family = "IPv4"; internal = false; address = "10.1.2.3" }
      ∷ record { family = "IPv4"; internal = true; address = "127.0.0.1" }
      ∷ record { family = "IPv6"; internal = false; address = "fe80::1" }
      ∷ record { family = "IPv4"; internal = false; address = "8.8.8.8" }
      ∷ [])
    ≡ "10.1.2.3" ∷ []
unfolding private_addresses is_private_ipv4 split_dots parse_int signed unsigned digit_run
    push_front trim_start
interfaces_kept = refl
