-- ===== src/Proxy/Tests.antt =====
-- The theorems of the proxy on a concrete provider: it answers with a response or a stream that calls
-- the tool "rm", which a rule blocks.
use crabwise.Common.{
  ◌≡◌, refl, Bool, true, false, Option, none, some, List, [], ◌∷◌, ◌++◌, Text, codes, ◌==◌,
  has_prefix, to_lower, trim_space, trim_prefix, Map, lookup, arith, pos, if◌then◌else◌,
}
use crabwise.Common.Result.{Result, ok}
use crabwise.Audit.Event.{AuditEvent}
use crabwise.Audit.Logger.{EvalResult}
use crabwise.Proxy.{Router, new_router, resolve}
use crabwise.Proxy.Laws.{Resolves, new_router-Resolves}
use crabwise.Proxy.Provider.{
  ToolUseBlock, StreamEvent, NormalizedRequest, Chunk, line, Transport, Mapping, ProviderRuntime,
}
use crabwise.Proxy.Targets.{no_targets, parse_targets}
use crabwise.Proxy.Stream.{
  BufferedResult, buffer_sse_stream, buffer_loop, take_line, parse_sse_data, apply_event, finalize,
  accumulate, sort_indices, note_event, parse_sse_event_type,
}
use crabwise.Proxy.Stream.Laws.{IsWhole, buffer_sse_stream-IsWhole}
use crabwise.Proxy.Policy.{Environment, evaluate_tool_use_blocks}
use crabwise.Proxy.Policy.Laws.{Judges, evaluate_tool_use_blocks-Judges}
use crabwise.Proxy.Handler.{decide_call, handle_proxy, routed_call}
use crabwise.Proxy.Handler.Parts.{targets_of, Config, Request, Metrics, Http}
use crabwise.Proxy.Handler.Ends.{Call}
use crabwise.Proxy.Handler.Laws.{Accounts, Turned, handle_proxy-IsAccounted}
use crabwise.Proxy.Handler.Released.{Decides, decide_call-IsGuarded}

abbrev rm_block : ToolUseBlock
rm_block = record {
  id = codes "t1";
  tool_name = codes "rm";
  tool_input = codes "{}";
  targets = no_targets;
}

abbrev rm_event : StreamEvent
rm_event = record {
  model = codes "m";
  finish_reason = [];
  input_tokens = pos 3;
  output_tokens = pos 4;
  has_usage = true;
  has_finish = false;
  tool_call_deltas =
      record { index = pos 0; id = codes "t1"; name = codes "rm"; args_delta = codes "{}" } ∷ [];
}

abbrev transport : Transport
transport = record {
  prepare_auth = λ req. ok req;
  forward = λ req. ok (record {
    status = 200;
    content_type = codes "application/json";
    headers = [];
    body = line (codes "{}") ∷ [];
  });
  parse_stream_event = λ payload. ok rm_event;
  extract_tool_use_blocks = λ body. ok (rm_block ∷ []);
}

abbrev mapping : Mapping
mapping = record {
  normalize_request = λ provider path body. ok (record {
    provider = provider;
    endpoint = path;
    model = codes "m";
    stream = false;
    tools = [];
    input_summary = [];
    mapping_degraded = false;
  });
  normalize_response = λ body status. (
    record {
      model = codes "m";
      finish_reason = [];
      input_tokens = pos 3;
      output_tokens = pos 4;
      upstream_status = status;
      error_type = [];
      error_message = [];
      mapping_degraded = false;
    },
    none,
  );
}

abbrev runtime : List Text → ProviderRuntime
runtime patterns = record {
  upstream_base_url = codes "https://api";
  route_patterns = patterns;
  transport = transport;
  mapping = mapping;
}

abbrev two_providers : Map ProviderRuntime
two_providers =
    (codes "openai", runtime (codes "/v1/chat*" ∷ []))
    ∷ (codes "anthropic", runtime (codes "/v1/messages" ∷ []))
    ∷ []

abbrev router : Router
router = record { default_provider = codes "openai"; providers = two_providers }

router-is_built : new_router (codes "openai") two_providers ≡ ok router
unfolding new_router lookup ◌==◌
router-is_built = refl

abbrev literal : Text → Text → Option Bool
literal pattern path = some (pattern == path)

new_router-Resolves_example :
    Resolves literal router []
      (codes "/v1/messages")
      (resolve literal router [] (codes "/v1/messages"))
new_router-Resolves_example =
    new_router-Resolves literal (codes "openai") two_providers router [] (codes "/v1/messages")
      router-is_built

abbrev blocks_rm : AuditEvent → EvalResult
blocks_rm e = record {
  evaluated = codes "no-rm" ∷ [];
  triggered =
      if e.action == codes "rm"
      then record { name = codes "no-rm"; enforcement = codes "block"; message = [] } ∷ []
      else [];
}

abbrev env : Environment
env = record {
  evaluator = some blocks_rm;
  classify = λ provider tool keys. record {
    category = codes "shell";
    effect = codes "execute";
    taxonomy_version = codes "v1";
    classification_source = codes "exact";
  };
  extract_arg_keys = λ input. [];
  attributor = none;
  raw_payloads = none;
  unmarshal_object = λ s. [];
  marshal_object = λ m. some (codes "{}");
  uuid = λ n. codes "u";
  clock = λ n. n;
}

abbrev http : Http
http = record {
  valid = λ s. true;
  quote = λ s. s;
  unmarshal_map = λ s. some [];
  unmarshal_string = λ s. s;
  parse_url = λ s. ok (record { path = []; with = λ path query. s ++ path });
  path_join = λ p q. p ++ q;
  request_error = λ method target. none;
  milliseconds = λ from to. pos 0;
  now = 7;
  float_of_int = λ n. 0;
  float_div = λ a b. 0;
  float_mul = λ a b. 0;
  float_add = λ a b. 0;
  million = 1000000;
}

abbrev cfg : Config
cfg = record {
  mapping_strict_mode = true;
  redact_egress_default = true;
  stream_max_buffer = pos 100;
  pricing = [];
  default_patterns = [];
  redact_patterns = [];
}

abbrev request : Request
request = record {
  method = codes "POST";
  path = codes "/v1/messages";
  query = [];
  headers = [];
  provider_header = [];
  original_id = [];
  body = some (codes "{}");
  write_error = none;
}

abbrev metrics : Metrics
metrics = record { active = 0; total = 0; blocked = 0; upstream_errors = 0; degraded = 0 }

handle_proxy-IsAccounted_example :
    Accounts env http cfg
      (Turned env http cfg literal router (codes "e1") 5 metrics request)
      (codes "e1")
      metrics
      (handle_proxy env http cfg literal router (codes "e1") 5 metrics request)
handle_proxy-IsAccounted_example =
    handle_proxy-IsAccounted env http cfg literal router (codes "e1") 5 metrics request
      (omega arith)

abbrev normalized : NormalizedRequest
normalized = record {
  provider = codes "anthropic";
  endpoint = codes "/v1/messages";
  model = codes "m";
  stream = false;
  tools = [];
  input_summary = [];
  mapping_degraded = false;
}

abbrev call : Call
call =
    routed_call env http cfg (codes "e1") 5 request (codes "{}") (runtime []) (codes "anthropic")
      normalized false metrics

decide_call-IsGuarded_example : Decides env http cfg call (decide_call env http cfg call)
decide_call-IsGuarded_example = decide_call-IsGuarded env http cfg call

evaluate_tool_use_blocks-Judges_example :
    Judges env blocks_rm
      (codes "anthropic")
      (codes "m")
      0
      (rm_block ∷ [])
      (evaluate_tool_use_blocks env (rm_block ∷ []) (codes "anthropic") (codes "m"))
evaluate_tool_use_blocks-Judges_example =
    evaluate_tool_use_blocks-Judges env blocks_rm (codes "anthropic") (codes "m") (rm_block ∷ [])
      refl

abbrev parse : Text → Result Text StreamEvent
parse payload = ok rm_event

abbrev chunks : List Chunk
chunks = line (codes "data: x" ++ (10 ∷ [])) ∷ line (10 ∷ []) ∷ []

abbrev buffered : BufferedResult
buffered = record {
  body = codes "data: x" ++ (10 ∷ 10 ∷ []);
  telemetry = record {
    input_tokens = pos 3;
    output_tokens = pos 4;
    model = codes "m";
    finish_reason = [];
    has_usage = true;
    first_token_at = 7;
  };
  tool_blocks = rm_block ∷ [];
}

chunks-are_buffered :
    buffer_sse_stream http.valid http.quote (targets_of http) parse 7 100 chunks ≡ ok buffered
unfolding buffer_sse_stream buffer_loop take_line parse_sse_data apply_event finalize accumulate
    sort_indices note_event parse_sse_event_type has_prefix trim_space trim_prefix ◌==◌
    parse_targets to_lower
chunks-are_buffered = refl

buffer_sse_stream-IsWhole_example :
    IsWhole http.valid http.quote (targets_of http) parse 100 chunks buffered
buffer_sse_stream-IsWhole_example =
    buffer_sse_stream-IsWhole http.valid http.quote (targets_of http) parse 7 100 chunks buffered
      chunks-are_buffered
