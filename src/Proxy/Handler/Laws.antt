-- ===== src/Proxy/Handler/Laws.antt =====
-- What handleProxy promises of every request: its record in the audit trail and in the counters.
use crabwise.Common.{
  ℕ, ◌≡◌, refl, subst, ◌∙◌, ◌<◌, ◌^◌, ◌⊎◌, inl, inr, Bool, true, false, Option, none, some, List,
  [], ◌∷◌, ◌++◌, nat_eq, Text, codes, arith, if-intro, option-intro, if◌then◌else◌,
}
use crabwise.Common.Result.{ok, err, result-intro}
use crabwise.Audit.Event.{AuditEvent, outcome_blocked, outcome_success}
use crabwise.Proxy.{Router, RouterError, resolve}
use crabwise.Proxy.Provider.{ProviderRuntime}
use crabwise.Proxy.Policy.{
  Environment, text, flag, append_argument_metadata, should_block, maybe_write_raw_payload,
}
use crabwise.Proxy.Policy.Laws.{build_audit_event-Begun}
use crabwise.Proxy.Redaction.{redact_payload}
use crabwise.Proxy.Handler.{
  redact_egress, reject_with, failure_metadata, request_failure, send_upstream, forward_call,
  forbid_request, decide_call, normalize_request, routed_call, early, handle_routed, handle_proxy,
}
use crabwise.Proxy.Handler.Parts.{
  count_up, count_down, Config, Request, Metrics, Answer, error, Http, router_message,
  build_upstream_request,
}
use crabwise.Proxy.Handler.Ends.{Call, count_upstream_error}
use crabwise.Proxy.Handler.Recorded.{
  IsRecorded, Recorded, Matches, is_denied, reject-IsRecorded, maybe_write_raw_payload-same,
}
use crabwise.Proxy.Handler.Answered.{answer_upstream-IsRecorded}

restored : (n : ℕ) → n < 2 ^ 64 → count_down (count_up n) ≡ n
restored n small = omega arith

module _ (env : Environment) (http : Http) (cfg : Config) where
  forward_call-IsRecorded :
      (c : Call) → c.preflight.outcome ≡ outcome_success → Recorded c (forward_call env http cfg c)
  unfolding forward_call send_upstream reject_with
  forward_call-IsRecorded c begun =
      result-intro (Recorded c) (build_upstream_request http c.request c.runtime c.body c.event_id)
        _ _
        (λ req built.
          result-intro (Recorded c) (c.runtime.transport.prepare_auth req) _ _
            (λ prepared authorized.
              result-intro (Recorded c) (c.runtime.transport.forward prepared) _ _
                (λ up answered. answer_upstream-IsRecorded env http cfg c begun up (some prepared))
                (λ e failed.
                  reject-IsRecorded env http cfg c (count_upstream_error c.metrics) _ _
                    (failure_metadata env http cfg c (codes "upstream_error") e) _
                    (refl, refl, refl)))
            (λ e refused.
              reject-IsRecorded env http cfg c c.metrics _ _
                (failure_metadata env http cfg c (codes "auth") e) _ (refl, refl, refl)))
        (λ e bad.
          reject-IsRecorded env http cfg c c.metrics _ _ (request_failure env http cfg c) _
            (refl, refl, refl))

  abbrev Kept : Call → Call → Type 0
  Kept c d =
      (d.preflight.id ≡ c.preflight.id)
      × (d.preflight.outcome ≡ c.preflight.outcome)
      × (d.metrics ≡ c.metrics)

  -- The redaction changes neither the record of the call nor its counters.
  redact_egress-Kept : (c : Call) → Kept c (redact_egress env http cfg c)
  unfolding redact_egress append_argument_metadata
  redact_egress-Kept c =
      if-intro (Kept c) cfg.redact_egress_default _ _
        (λ on.
          if-intro (Kept c) (redact_payload cfg.default_patterns cfg.redact_patterns c.body).1 _ _
            (λ changed. (refl, refl, refl)) (λ same. (refl, refl, refl)))
        (λ off. (refl, refl, refl))

  forbid_request-IsRecorded : (c : Call) → Recorded c (forbid_request env http cfg c)
  unfolding forbid_request append_argument_metadata Matches is_denied
  forbid_request-IsRecorded c =
      let e =
        append_argument_metadata env (record c.preflight { outcome = outcome_blocked })
          ((codes "request_id", text c.event_id)
            ∷ (codes "endpoint", text c.request.path)
            ∷ (codes "mapping_degraded", flag c.degraded)
            ∷ []) in
      let (same_id, same_outcome) = maybe_write_raw_payload-same env http cfg c e c.body in
      record {
        before = [];
        last = maybe_write_raw_payload env e c.body;
        events = refl;
        identified = same_id;
        outcome = same_outcome;
        active = refl;
        total = refl;
        blocked = refl;
      }

  decide_call-IsRecorded :
      (c : Call) → c.preflight.outcome ≡ outcome_success → Recorded c (decide_call env http cfg c)
  unfolding decide_call
  decide_call-IsRecorded c begun =
      let (same_id, same_outcome, same_metrics) = redact_egress-Kept c in
      if-intro (Recorded c) (should_block env c.preflight) _ _
        (λ forbidden. forbid_request-IsRecorded c)
        (λ allowed.
          let forwarded =
            forward_call-IsRecorded (redact_egress env http cfg c) (same_outcome ∙ begun) in
          subst
            (λ (id : Text).
              IsRecorded id c.metrics (forward_call env http cfg (redact_egress env http cfg c)))
            same_id
            (subst
              (λ (m : Metrics).
                IsRecorded (redact_egress env http cfg c).preflight.id m
                  (forward_call env http cfg (redact_egress env http cfg c)))
              same_metrics forwarded))

  -- An answer before there is an event: an error that is no denial, for a reason that its status names.
  abbrev Unrouted : (ℕ → Type 0) → Answer → Type 0
  Unrouted Turned a =
      (a.events ≡ [])
      × (a.forwarded ≡ none)
      × (status : ℕ) × (kind : Text) × (message : Text) × (id : Text) × (a.reply
          ≡ error status kind message id)
      × Turned status
      × (is_denied a.reply ≡ false)

  -- The last event has the identifier and the outcome of the reply.
  abbrev IsAudited : Text → Answer → Type 0
  IsAudited id a =
      (before : List AuditEvent) × (last : AuditEvent) × (a.events ≡ before ++ (last ∷ []))
      × (last.id ≡ id)
      × Matches a.reply last.outcome

  pub record IsAccounted (Turned : ℕ → Type 0) (id : Text) (m : Metrics) (a : Answer) : Type 0 where
    pub audited : Unrouted Turned a ⊎ IsAudited id a
    pub active : a.metrics.active ≡ count_down m.active
    pub total : a.metrics.total ≡ m.total
    pub blocked : a.metrics.blocked ≡ (if is_denied a.reply then count_up m.blocked else m.blocked)

  IsRecorded-IsAccounted :
      {Turned : ℕ → Type 0} {id : Text} {m : Metrics} {a : Answer}
      → IsRecorded id m a
      → IsAccounted Turned id m a
  IsRecorded-IsAccounted r = record {
    audited = inr (r.before, r.last, r.events, r.identified, r.outcome);
    active = r.active;
    total = r.total;
    blocked = r.blocked;
  }

  IsAccounted-degraded :
      (Turned : ℕ → Type 0) (id : Text) (m : Metrics) (a : Answer)
      → IsAccounted Turned id (record m { degraded = count_up m.degraded }) a
      → IsAccounted Turned id m a
  IsAccounted-degraded Turned id m a k = record {
    audited = k.audited;
    active = k.active;
    total = k.total;
    blocked = k.blocked;
  }

  early-IsAccounted :
      (Turned : ℕ → Type 0) (id : Text) (m : Metrics) (status : ℕ) (kind message sent_id : Text)
      → Turned status
      → nat_eq status 403 ≡ false
      → IsAccounted Turned id m (early env http cfg m (error status kind message sent_id))
  unfolding early is_denied
  early-IsAccounted Turned id m status kind message sent_id why other = record {
    audited = inl (refl, refl, status, kind, message, sent_id, refl, why, other);
    active = refl;
    total = refl;
    blocked = rw other refl;
  }

  normalize_request-failed :
      (runtime : ProviderRuntime) (provider path body e : Text)
      → (normalize_request env http cfg runtime provider path body).2 ≡ some e
      → runtime.mapping.normalize_request provider path body ≡ err e
  unfolding normalize_request
  normalize_request-failed runtime provider path body e h = ground arith

  handle_routed-IsAccounted :
      (Turned : ℕ → Type 0) (event_id : Text) (start : ℕ) (m : Metrics) (r : Request) (body : Text)
      (runtime : ProviderRuntime) (provider : Text)
      → ((e : Text)
          → runtime.mapping.normalize_request provider r.path body ≡ err e
          → cfg.mapping_strict_mode ≡ true
          → Turned 502)
      → IsAccounted Turned event_id m
          (handle_routed env http cfg event_id start m r body runtime provider)
  unfolding handle_routed
  handle_routed-IsAccounted Turned event_id start m r body runtime provider unmapped =
      let normal = normalize_request env http cfg runtime provider r.path body in
      let call : Metrics → Call =
        routed_call env http cfg event_id start r body runtime provider normal.0 normal.1 in
      let (same_id, begun) = build_audit_event-Begun env event_id start provider normal.0 r.path in
      let decide : (m' : Metrics)
          → IsAccounted Turned event_id m' (decide_call env http cfg (call m')) =
        λ m'.
          subst (λ (id : Text). IsAccounted Turned id m' (decide_call env http cfg (call m')))
            same_id (IsRecorded-IsAccounted (decide_call-IsRecorded (call m') begun)) in
      option-intro (IsAccounted Turned event_id m) normal.2 _ _ (λ mapped. decide m)
        (λ e failed.
          if-intro (IsAccounted Turned event_id m) cfg.mapping_strict_mode _ _
            (λ strict.
              early-IsAccounted Turned event_id m 502 (codes "mapping_error") e event_id
                (unmapped e (normalize_request-failed runtime provider r.path body e failed) strict)
                refl)
            (λ lenient.
              IsAccounted-degraded Turned event_id m _
                (decide (record m { degraded = count_up m.degraded }))))

  -- The account of a request, against the counters before it came.
  abbrev pub Accounts : (ℕ → Type 0) → Text → Metrics → Answer → Type 0
  Accounts Turned id metrics a =
      (Unrouted Turned a ⊎ IsAudited id a)
      × (a.metrics.active ≡ metrics.active)
      × (a.metrics.total ≡ count_up metrics.total)
      × (a.metrics.blocked
          ≡ (if is_denied a.reply then count_up metrics.blocked else metrics.blocked))

  module _ (match : Text → Text → Option Bool) (router : Router) (event_id : Text) (start : ℕ)
      (metrics : Metrics) (r : Request) where
    -- Why a request ends without an event: its body is too large or unreadable, there is no route, or
    -- its mapping fails in strict mode.
    pub data Turned : ℕ → Type 0 where
      unread : r.body ≡ none → Turned 413
      unrouted :
          (e : RouterError) → resolve match router r.provider_header r.path ≡ err e → Turned 400
      unmapped :
          (body : Text) (runtime : ProviderRuntime) (provider e : Text)
          → r.body ≡ some body
          → resolve match router r.provider_header r.path ≡ ok (runtime, provider)
          → runtime.mapping.normalize_request provider r.path body ≡ err e
          → cfg.mapping_strict_mode ≡ true
          → Turned 502

    arrived : Metrics
    arrived = record metrics { active = count_up metrics.active; total = count_up metrics.total }

    handle_proxy-arrived :
        IsAccounted Turned event_id arrived
          (handle_proxy env http cfg match router event_id start metrics r)
    unfolding handle_proxy arrived
    handle_proxy-arrived =
        option-intro (IsAccounted Turned event_id arrived) r.body _ _
          (λ too_large.
            early-IsAccounted Turned event_id arrived 413 _ _ [] (unread too_large) refl)
          (λ body read.
            result-intro (IsAccounted Turned event_id arrived)
              (resolve match router r.provider_header r.path) _ _
              (λ found routed.
                handle_routed-IsAccounted Turned event_id start arrived r body found.0 found.1
                  (λ e failed strict. unmapped body found.0 found.1 e read routed failed strict))
              (λ e unrouted_by.
                early-IsAccounted Turned event_id arrived 400 _ (router_message e) event_id
                  (unrouted e unrouted_by) refl))

    -- While fewer than 2^64 connections are active, an answered request leaves their number as it was
    -- and counts once in the total, and once as blocked exactly if the answer is a 403 of the proxy.
    -- Either no event is recorded and nothing is forwarded, and it is answered with 413 as its body is
    -- too large or unreadable, with 400 as there is no route, or with 502 as its mapping fails in
    -- strict mode; or the last event recorded has the request's identifier and the outcome of the answer: blocked for
    -- a 403 of the proxy, failure for its other errors and for a response of status 400 and above,
    -- and otherwise failure or success.
    pub handle_proxy-IsAccounted :
        metrics.active < 2 ^ 64
        → Accounts Turned event_id metrics
            (handle_proxy env http cfg match router event_id start metrics r)
    handle_proxy-IsAccounted small =
        let k = handle_proxy-arrived in
        unfold arrived in (k.audited, k.active ∙ restored metrics.active small, k.total, k.blocked)
