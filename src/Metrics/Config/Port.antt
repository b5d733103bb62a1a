-- ===== src/Metrics/Config/Port.antt =====
-- What `parseHostPortString` makes of a host and a decimal port, and the publisher that comes of it.
use buildbox_common.Prelude.{
  ℕ, ◌%◌, ◌^◌, ◌<◌, ◌≡◌, refl, ap, ◌∙◌, true, false, [], ◌∷◌, ◌++◌, none, some, ltb, if◌then◌else◌,
  arith, Text, text_eq, codes, All, starts_with,
}
use buildbox_common.StringUtils.{ltrim, is_space}
use buildbox_common.Numbers.{
  parsed, range_error, invalid_argument, is_digit, digits_value, stoul, number_of, read_sign,
  checked,
}
use buildbox_common.Metrics.Config.{
  MetricsConfig, after_search, make_udp, make_publisher, cut_last_colon, check_port,
  parse_host_port, metrics_parser, from_config, udp,
}

-- A decimal number.
abbrev pub AreDigits : Text → Type 0
AreDigits = All (λ c. is_digit c ≡ true)

cut-digits : (port : Text) → AreDigits port → cut_last_colon port ≡ none
unfolding cut_last_colon
cut-digits [] h = refl
cut-digits (c ∷ rest) h = ground (arith, cut-digits rest h.1)

cut-append :
    (host port : Text)
    → cut_last_colon port ≡ none
    → cut_last_colon (host ++ b':' ∷ port) ≡ some (host, port)
unfolding cut_last_colon
cut-append [] port h = rw h refl
cut-append (c ∷ host) port h = rw (cut-append host port h) refl

ltrim-digit : (c : ℕ) (rest : Text) → is_digit c ≡ true → ltrim (c ∷ rest) ≡ c ∷ rest
unfolding ltrim is_space
ltrim-digit c rest h = ground arith

read_sign-digit :
    (c : ℕ) (rest : Text) → is_digit c ≡ true → read_sign (c ∷ rest) ≡ (false, c ∷ rest)
read_sign-digit c rest h = ground arith

checked-small : (v : ℕ) → v < 2 ^ 64 → checked false v ≡ parsed v
checked-small v h = ground arith

stoul-digits :
    (c : ℕ) (rest : Text)
    → AreDigits (c ∷ rest)
    → digits_value 0 (c ∷ rest) < 2 ^ 64
    → stoul (c ∷ rest) ≡ parsed (digits_value 0 (c ∷ rest))
unfolding stoul
stoul-digits c rest h small =
    ap (number_of checked) (ap read_sign (ltrim-digit c rest h.0) ∙ read_sign-digit c rest h.0)
    ∙ (ap (λ b. if b then checked false (digits_value 0 (c ∷ rest)) else invalid_argument) h.0
        ∙ checked-small (digits_value 0 (c ∷ rest)) small)

two_digits :
    (host : Text) (c d : ℕ) (rest : Text)
    → after_search (host ++ b':' ∷ c ∷ d ∷ rest) (some (host, c ∷ d ∷ rest))
      ≡ check_port host (stoul (c ∷ d ∷ rest))
two_digits host c d rest = ground arith

-- A port of two decimal digits or more that is less than 2^64 is cut to 32 bits; the result is the
-- host and the port where that is at most 65535, and else an error.
pub parse_host_port_digits :
    (host : Text) (c d : ℕ) (rest : Text)
    → AreDigits (c ∷ d ∷ rest)
    → digits_value 0 (c ∷ d ∷ rest) < 2 ^ 64
    → parse_host_port (host ++ b':' ∷ c ∷ d ∷ rest) ≡ (
        if ltb 65535 (digits_value 0 (c ∷ d ∷ rest) % 2 ^ 32)
        then range_error
        else parsed (host, digits_value 0 (c ∷ d ∷ rest) % 2 ^ 32))
unfolding parse_host_port
parse_host_port_digits host c d rest h small =
    let input = host ++ b':' ∷ c ∷ d ∷ rest in
    ap (after_search input) (cut-append host (c ∷ d ∷ rest) (cut-digits (c ∷ d ∷ rest) h))
    ∙ (two_digits host c d rest ∙ ap (check_port host) (stoul-digits c (d ∷ rest) h small))

-- A port of one digit is not read: the result is the host and the default port.
pub parse_host_port_one_digit :
    (host : Text) (c : ℕ)
    → is_digit c ≡ true
    → parse_host_port (host ++ b':' ∷ c ∷ []) ≡ parsed (host, 8125)
unfolding parse_host_port
parse_host_port_one_digit host c h =
    ap (after_search (host ++ b':' ∷ c ∷ []))
      (cut-append host (c ∷ []) (cut-digits (c ∷ []) (h, tt)))

small_port : (host : Text) (v : ℕ) → v < 2 ^ 16 → check_port host (parsed v) ≡ parsed (host, v)
small_port host v h = let e : v % 2 ^ 32 ≡ v = omega arith in ground (arith, e)

publishes :
    (h : ℕ) (hs : Text) (v : ℕ)
    → 0 < v
    → make_publisher udp (h ∷ hs) v
      ≡ parsed (record { publish_method = udp; publish_path = h ∷ hs; publish_port = v })
unfolding text_eq
publishes h hs v pos = ground arith

from_config-udp :
    (config : MetricsConfig) (c : ℕ) (cs : Text)
    → config.udp_server ≡ c ∷ cs
    → from_config config ≡ make_udp (parse_host_port (c ∷ cs))
unfolding from_config text_eq
from_config-udp config c cs e = rw e refl

-- The mode `udp://HOST:PORT`, with a host that is not empty and a port of two digits or more
-- whose value is from 1 to 65535, is accepted whatever the configuration held, and the publisher that
-- is made from it sends to that host and that port by UDP.
pub metrics_parser-from_config :
    (config : MetricsConfig) (h : ℕ) (hs : Text) (c d : ℕ) (rest : Text)
    → AreDigits (c ∷ d ∷ rest)
    → 0 < digits_value 0 (c ∷ d ∷ rest)
    → digits_value 0 (c ∷ d ∷ rest) < 2 ^ 16
    → let server = (h ∷ hs) ++ b':' ∷ c ∷ d ∷ rest in
      let config' : MetricsConfig = record config { enable = true; udp_server = server } in
      (metrics_parser (codes "metrics-mode") (codes "udp://" ++ server) config ≡ parsed config')
      × (from_config config'
          ≡ parsed (record {
            publish_method = udp;
            publish_path = h ∷ hs;
            publish_port = digits_value 0 (c ∷ d ∷ rest);
          }))
unfolding starts_with
metrics_parser-from_config config h hs c d rest digits pos small =
    let v = digits_value 0 (c ∷ d ∷ rest) in
    (
      unfold metrics_parser in refl,
      from_config-udp _ h (hs ++ b':' ∷ c ∷ d ∷ rest) refl
          ∙ (ap make_udp (
                parse_host_port_digits (h ∷ hs) c d rest digits (omega (arith, small))
                ∙ small_port (h ∷ hs) v small)
              ∙ publishes h hs v pos),
    )
