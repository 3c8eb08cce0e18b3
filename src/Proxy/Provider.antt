-- ===== src/Proxy/Provider.antt =====
-- internal/adapter/proxy/provider.go and the types of tooluse.go: what the proxy knows of a provider,
-- of a request and of a response. A transport and a mapping are interfaces; float64 values are bits.
use crabwise.Common.{ℕ, Bool, Option, List, Text, ℤ}
use crabwise.Common.Result.{Result}

pub record ToolTargets : Type 0 where
  pub argv : List Text
  pub paths : List Text
  pub path_mode : Text

pub record ToolUseBlock : Type 0 where
  pub id : Text
  pub tool_name : Text
  pub tool_input : Text
  pub targets : ToolTargets

pub record ToolCallDelta : Type 0 where
  pub index : ℤ
  pub id : Text
  pub name : Text
  pub args_delta : Text

pub record StreamEvent : Type 0 where
  pub model : Text
  pub finish_reason : Text
  pub input_tokens : ℤ
  pub output_tokens : ℤ
  pub has_usage : Bool
  pub has_finish : Bool
  pub tool_call_deltas : List ToolCallDelta

pub record NormalizedTool : Type 0 where
  pub name : Text
  pub raw_args : Text
  pub arg_keys : List Text
  pub category : Text
  pub effect : Text
  pub taxonomy_version : Text
  pub classification_source : Text

pub record NormalizedRequest : Type 0 where
  pub provider : Text
  pub endpoint : Text
  pub model : Text
  pub stream : Bool
  pub tools : List NormalizedTool
  pub input_summary : Text
  pub mapping_degraded : Bool

pub record NormalizedResponse : Type 0 where
  pub model : Text
  pub finish_reason : Text
  pub input_tokens : ℤ
  pub output_tokens : ℤ
  pub upstream_status : ℕ
  pub error_type : Text
  pub error_message : Text
  pub mapping_degraded : Bool

-- The name and the value of each header line.
abbrev pub Headers : Type 0
Headers = List (Text × Text)

pub record UpstreamRequest : Type 0 where
  pub method : Text
  pub target : Text
  pub headers : Headers
  pub body : Text

-- What arrives of a body: a line with its end, a pause longer than the idle timeout, or an error.
pub data Chunk : Type 0 where
  line : Text → Chunk
  idle : Chunk
  failed : Text → Chunk

pub record UpstreamResponse : Type 0 where
  pub status : ℕ
  pub content_type : Text
  pub headers : Headers
  pub body : List Chunk

pub record Transport : Type 0 where
  pub prepare_auth : UpstreamRequest → Result Text UpstreamRequest
  pub forward : UpstreamRequest → Result Text UpstreamResponse
  pub parse_stream_event : Text → Result Text StreamEvent
  pub extract_tool_use_blocks : Text → Result Text (List ToolUseBlock)

-- NormalizeRequest and NormalizeResponse of a provider's specification.
pub record Mapping : Type 0 where
  pub normalize_request : Text → Text → Text → Result Text NormalizedRequest
  pub normalize_response : Text → ℕ → NormalizedResponse × Option Text

pub record ProviderRuntime : Type 0 where
  pub upstream_base_url : Text
  pub route_patterns : List Text
  pub transport : Transport
  pub mapping : Mapping
