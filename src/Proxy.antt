-- ===== src/Proxy.antt =====
-- solana-rpc-proxy/main.go: who may send what through the proxy. The parsing of addresses, the test
-- of a subnet and the forwarding are library code: parameters.
use Prim.Native.String.{String}
use tchebets_open.Prelude.{
  ◌≡◌, inl, inr, Bool, true, false, not, Option, none, some, arith, str_eq, if◌then◌else◌,
  Option-cases,
}
use tchebets_open.General.Text.{is_empty}

pub record HttpRequest : Type 0 where
  pub remote_addr : String
  pub url_path : String
  pub http_method : String

-- `net.SplitHostPort` (the host alone) and `netip.ParseAddr`, each `none` on an error, and the test
-- of the parsed subnet.
pub record Net : Type 1 where
  pub Addr : Type 0
  pub split_host : String → Option String
  pub parse_addr : String → Option Addr
  pub subnet_contains : Addr → Bool

pub data Verdict : Type 0 where
  forbidden no_content method_not_allowed forwarded : Verdict

-- `envOr`, of what `os.Getenv` returns.
unfoldable pub env_or : String → String → String
env_or value fallback = if is_empty value then fallback else value

module _ (net : Net) where
  abbrev pub contains_parsed : Option net.Addr → Bool
  contains_parsed none = false
  contains_parsed (some address) = net.subnet_contains address

  -- `allowedClient`.
  unfoldable pub allowed_client : HttpRequest → Bool
  allowed_client r = elim (net.split_host r.remote_addr) [
    | none ↦ false
    | some host ↦ contains_parsed (net.parse_addr host)
  ]

  -- The handler of `main`.
  unfoldable pub proxy_handler : HttpRequest → Verdict
  proxy_handler r =
      if not (allowed_client r)
      then forbidden
      else if str_eq r.url_path "/health"
      then no_content
      else if not (str_eq r.http_method "POST")
      then method_not_allowed
      else forwarded

  allowed-parsed :
      (r : HttpRequest)
      → allowed_client r ≡ true
      → (host : String) × (a : net.Addr) × (net.split_host r.remote_addr ≡ some host)
        × (net.parse_addr host ≡ some a)
        × (net.subnet_contains a ≡ true)
  unfolding allowed_client
  allowed-parsed r e = elim (Option-cases (net.split_host r.remote_addr)) [
    | inl none_host ↦ absurd (ground (arith, e, none_host))
    | inr (host, split) ↦ elim (Option-cases (net.parse_addr host)) [
      | inl none_addr ↦ absurd (ground (arith, e, split, none_addr))
      | inr (a, parsed) ↦ (host, a, split, parsed, ground (arith, e, split, parsed))
    ]
  ]

  forwarded-allowed :
      (r : HttpRequest)
      → proxy_handler r ≡ forwarded
      → (allowed_client r ≡ true)
        × (str_eq r.url_path "/health" ≡ false)
        × (str_eq r.http_method "POST" ≡ true)
  unfolding proxy_handler
  forwarded-allowed r e = ground (arith, e)

  -- A request that goes on to the upstream is a POST, not to the health check, from an address that
  -- parses and lies in the subnet.
  forwarded-only :
      (r : HttpRequest)
      → proxy_handler r ≡ forwarded
      → (str_eq r.http_method "POST" ≡ true)
        × (str_eq r.url_path "/health" ≡ false)
        × ((host : String) × (a : net.Addr) × (net.split_host r.remote_addr ≡ some host)
            × (net.parse_addr host ≡ some a)
            × (net.subnet_contains a ≡ true))
  forwarded-only r e =
      let (allowed, path, verb) = forwarded-allowed r e in (verb, path, allowed-parsed r allowed)
