-- ===== src/Proxy/Handler/Parts.antt =====
-- The types of the handler, its configuration, and the helpers of proxy.go and cost.go that build
-- what is sent: costs, error types, headers, the request for the provider.
use crabwise.Common.{
  ℕ, ◌+◌, ◌-◌, ◌%◌, ◌^◌, Bool, true, false, not, ◌||◌, Option, none, some, List, [], ◌∷◌, ◌++◌,
  Text, codes, ◌==◌, non_empty, trim_space, to_lower, any, keep, Map, lookup, suc, nat_eq, ℤ, pos,
  if◌then◌else◌,
}
use crabwise.Audit.Event.{AuditEvent}
use crabwise.Common.Result.{Result, ok, err, ◌>>=◌}
use crabwise.Proxy.{
  RouterError, no_providers, default_required, no_route, default_unregistered, unknown_provider,
}
use crabwise.Proxy.Provider.{ToolTargets, Headers, UpstreamRequest, ProviderRuntime}
use crabwise.Proxy.Targets.{parse_targets}
use crabwise.Proxy.Stream.{default_stream_max_bytes}

-- The settings that the handler reads. A price is the bits of two float64 values.
pub record Config : Type 0 where
  pub mapping_strict_mode : Bool
  pub redact_egress_default : Bool
  pub stream_max_buffer : ℤ
  pub pricing : Map (ℕ × ℕ)
  pub default_patterns : List (Text → List (ℕ × ℕ))
  pub redact_patterns : List (Text → List (ℕ × ℕ))

-- A request: `body` is none if it is longer than the limit or cannot be read, `original_id` is the
-- header X-Request-ID, `write_error` what a write to the client would fail with.
pub record Request : Type 0 where
  pub method : Text
  pub path : Text
  pub query : Text
  pub headers : Headers
  pub provider_header : Text
  pub original_id : Text
  pub body : Option Text
  pub write_error : Option Text

-- The counters of the proxy, each the bits of a 64-bit integer.
pub record Metrics : Type 0 where
  pub active : ℕ
  pub total : ℕ
  pub blocked : ℕ
  pub upstream_errors : ℕ
  pub degraded : ℕ

abbrev pub count_up : ℕ → ℕ
count_up n = (n + 1) % 2 ^ 64

abbrev pub count_down : ℕ → ℕ
count_down n = (n + (2 ^ 64 - 1)) % 2 ^ 64

-- What the client gets: an error of the proxy, or the provider's response.
pub data Reply : Type 0 where
  error : ℕ → Text → Text → Text → Reply
  response : ℕ → Headers → Text → Reply

pub record Answer : Type 0 where
  pub reply : Reply
  pub events : List AuditEvent
  pub metrics : Metrics
  pub forwarded : Option UpstreamRequest

-- A parsed URL: its path, and the text of the URL with another path and query.
pub record Url : Type 0 where
  pub path : Text
  pub with : Text → Text → Text

-- Packages json, url, path, http and time, and float64 on its bits.
pub record Http : Type 0 where
  pub valid : Text → Bool
  pub quote : Text → Text
  pub unmarshal_map : Text → Option (Map Text)
  pub unmarshal_string : Text → Text
  pub parse_url : Text → Result Text Url
  pub path_join : Text → Text → Text
  pub request_error : Text → Text → Option Text
  pub milliseconds : ℕ → ℕ → ℤ
  pub now : ℕ
  pub float_of_int : ℤ → ℕ
  pub float_div : ℕ → ℕ → ℕ
  pub float_mul : ℕ → ℕ → ℕ
  pub float_add : ℕ → ℕ → ℕ
  pub million : ℕ

-- `ParseTargets` with the decoding.
abbrev pub targets_of : Http → Text → Text → ToolTargets
targets_of http = parse_targets http.unmarshal_map http.unmarshal_string

pub record CostResult : Type 0 where
  pub cost_usd : ℕ
  pub unknown_model : Bool

priced : Http → Option (ℕ × ℕ) → ℤ → ℤ → CostResult
priced http none input_tokens output_tokens = record { cost_usd = 0; unknown_model = true }
priced http (some (per_input, per_output)) input_tokens output_tokens = record {
  cost_usd =
      http.float_add
        (http.float_mul (http.float_div (http.float_of_int input_tokens) http.million) per_input)
        (http.float_mul (http.float_div (http.float_of_int output_tokens) http.million) per_output);
  unknown_model = false;
}

unfoldable pub compute_cost : Http → Map (ℕ × ℕ) → Text → ℤ → ℤ → CostResult
unfolding priced
compute_cost http pricing model input_tokens output_tokens =
    if any (λ entry. true) pricing
    then (if non_empty model
        then priced http (lookup model pricing) input_tokens output_tokens
        else record { cost_usd = 0; unknown_model = false })
    else record { cost_usd = 0; unknown_model = non_empty model }

abbrev one_of : List Text → Text → Bool
one_of names name = any (λ n. name == n) names

error_type_of_status : ℕ → Text
error_type_of_status status =
    if nat_eq status 429
    then codes "rate_limit"
    else if nat_eq status 401 || nat_eq status 403
    then codes "auth"
    else if nat_eq status 400
    then codes "invalid_request"
    else if nat_eq status 500 || (nat_eq status 502 || (nat_eq status 503 || nat_eq status 504))
    then codes "server_error"
    else codes "unknown"

unfoldable pub normalize_error_type : Text → ℕ → Text
unfolding error_type_of_status
normalize_error_type raw status =
    let name = to_lower raw in
    if one_of (codes "rate_limit" ∷ codes "rate_limit_exceeded" ∷ []) name
    then codes "rate_limit"
    else if name == codes "server_error"
    then codes "server_error"
    else if one_of (codes "invalid_request" ∷ codes "invalid_request_error" ∷ []) name
    then codes "invalid_request"
    else if one_of (codes "auth" ∷ codes "authentication_error" ∷ []) name
    then codes "auth"
    else error_type_of_status status

-- `if maxBuf <= 0 { maxBuf = defaultStreamMaxBytes }`
unfoldable pub max_buffer : ℤ → ℕ
max_buffer (pos (suc n)) = suc n
max_buffer _ = default_stream_max_bytes

-- Header.Set of a canonical name.
unfoldable pub set_header : Text → Text → Headers → Headers
set_header name value headers = keep (λ h. not (h.0 == name)) headers ++ ((name, value) ∷ [])

set_original : Text → Headers → Headers
unfolding set_header
set_original original headers =
    if non_empty original
    then set_header (codes "X-Crabwise-Original-Request-ID") original headers
    else headers

unfoldable pub copy_forward_headers : Headers → Headers
copy_forward_headers src =
    keep
      (λ h. not (
        one_of
          (codes "host"
            ∷ codes "content-length"
            ∷ codes "connection"
            ∷ codes "transfer-encoding"
            ∷ [])
          (to_lower h.0)))
      src

unfoldable pub copy_response_headers : Headers → Headers
copy_response_headers src =
    keep
      (λ h. not (
        one_of (codes "content-length" ∷ codes "connection" ∷ codes "transfer-encoding" ∷ [])
          (to_lower h.0)))
      src

-- `sendUpstreamHeaders`: the writer has the two identifiers already.
unfoldable pub response_headers : Text → Text → Headers → Headers
unfolding set_header set_original copy_response_headers
response_headers event_id original upstream =
    let first = set_original original (set_header (codes "X-Request-ID") event_id []) in
    set_original original
      (set_header (codes "X-Request-ID") event_id (first ++ copy_response_headers upstream))

-- `joinTargetURL`
unfoldable pub join_target : Http → Text → Text → Text → Result Text Text
join_target http base_url request_path raw_query = elim (http.parse_url (trim_space base_url)) [
  | err e ↦ err (codes "invalid upstream base url: " ++ e)
  | ok u ↦ ok (u.with (http.path_join u.path request_path) raw_query)
]

unfoldable pub build_upstream_request :
    Http → Request → ProviderRuntime → Text → Text → Result Text UpstreamRequest
unfolding join_target copy_forward_headers set_header set_original
build_upstream_request http r runtime body request_id =
    join_target http runtime.upstream_base_url r.path r.query >>= λ target.
    elim (http.request_error r.method target) [
      | some e ↦ err e
      | none ↦ ok (record {
        method = r.method;
        target = target;
        headers =
            set_original r.original_id
              (set_header (codes "X-Request-ID") request_id (copy_forward_headers r.headers));
        body = body;
      })
    ]

-- The message of a routing error.
unfoldable pub router_message : RouterError → Text
router_message no_providers = codes "router requires at least one provider"
router_message default_required = codes "default provider required"
router_message no_route = codes "no route and default provider unavailable"
router_message (default_unregistered name) =
    codes "default provider \"" ++ (name ++ codes "\" not registered")
router_message (unknown_provider name) = codes "unknown provider \"" ++ (name ++ codes "\"")
