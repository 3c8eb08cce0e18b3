-- ===== src/Proxy/Handler/Recorded.antt =====
-- What handleProxy leaves of a routed call: the event that records it and the counters.
use crabwise.Common.{
  ℕ, ◌≡◌, refl, ap, ◌∙◌, ◌⊎◌, inl, inr, Bool, true, false, ◌||◌, Option, List, [], ◌∷◌, ◌++◌, Text,
  codes, non_empty, nat_eq, leb, arith, if-intro, option-intro, if◌then◌else◌,
}
use crabwise.Audit.Event.{AuditEvent, outcome_blocked, outcome_failure, outcome_success}
use crabwise.Proxy.Provider.{NormalizedResponse, UpstreamRequest}
use crabwise.Proxy.Policy.{
  Environment, Value, text, append_argument_metadata, maybe_write_raw_payload,
}
use crabwise.Proxy.Handler.Parts.{
  count_up, count_down, Config, Metrics, Answer, Reply, error, response, Http,
}
use crabwise.Proxy.Handler.Ends.{
  Call, answer, reject, reject_plain, forbid_tool, settled_event, settle,
}

-- The outcome that an event must have for a reply: blocked for a 403 of the proxy, failure for its
-- other errors and for a response of 400 and above; another response is a success or a failure.
unfoldable pub Matches : Reply → Text → Type 0
Matches (error status kind message id) outcome =
    outcome ≡ (if nat_eq status 403 then outcome_blocked else outcome_failure)
Matches (response status headers body) outcome =
    (outcome ≡ outcome_failure) ⊎ ((leb 400 status ≡ false) × (outcome ≡ outcome_success))

unfoldable pub is_denied : Reply → Bool
is_denied (error status kind message id) = nat_eq status 403
is_denied (response status headers body) = false

-- The last event has the identifier of the call and the outcome of the reply; one connection less is
-- active, and one more call is blocked if it was denied.
pub record IsRecorded (id : Text) (m : Metrics) (a : Answer) : Type 0 where
  pub before : List AuditEvent
  pub last : AuditEvent
  pub events : a.events ≡ before ++ (last ∷ [])
  pub identified : last.id ≡ id
  pub outcome : Matches a.reply last.outcome
  pub active : a.metrics.active ≡ count_down m.active
  pub total : a.metrics.total ≡ m.total
  pub blocked : a.metrics.blocked ≡ (if is_denied a.reply then count_up m.blocked else m.blocked)

-- Counters that differ in the errors alone.
abbrev pub Steady : Metrics → Metrics → Type 0
Steady m m' = (m'.active ≡ m.active) × (m'.total ≡ m.total) × (m'.blocked ≡ m.blocked)

module _ (c : Call) where
  abbrev pub Recorded : Answer → Type 0
  Recorded a = IsRecorded c.preflight.id c.metrics a

  -- An answer that denies nothing, with counters that were steady.
  pub answer-IsRecorded :
      (m : Metrics) (reply : Reply) (e : AuditEvent) (sent : Option UpstreamRequest)
      → Steady c.metrics m
      → e.id ≡ c.preflight.id
      → is_denied reply ≡ false
      → Matches reply e.outcome
      → Recorded (answer c m reply (e ∷ []) sent)
  answer-IsRecorded m reply e sent (active, total, blocked) same granted fits = record {
    before = [];
    last = e;
    events = refl;
    identified = same;
    outcome = fits;
    active = ap count_down active;
    total = total;
    blocked = rw (granted, blocked) refl;
  }

module _ (env : Environment) (http : Http) (cfg : Config) (c : Call) where
  pub reject-IsRecorded :
      (m : Metrics) (kind message : Text) (kv : List (Text × Value)) (sent : Option UpstreamRequest)
      → Steady c.metrics m
      → Recorded c (reject env http cfg c m kind message kv sent)
  unfolding reject append_argument_metadata Matches is_denied
  reject-IsRecorded m kind message kv sent steady =
      answer-IsRecorded c m (error 502 kind message c.event_id)
        (append_argument_metadata env (record c.preflight { outcome = outcome_failure }) kv) sent
        steady refl refl refl

  pub reject_plain-IsRecorded :
      (m : Metrics) (kind message : Text) (sent : Option UpstreamRequest)
      → Steady c.metrics m
      → Recorded c (reject_plain env http cfg c m kind message sent)
  unfolding Matches is_denied
  reject_plain-IsRecorded m kind message sent steady =
      answer-IsRecorded c m (error 502 kind message c.event_id)
        (record c.preflight { outcome = outcome_failure }) sent steady refl refl refl

  -- What the writing of the raw payload leaves of an event.
  abbrev pub SameRecord : AuditEvent → AuditEvent → Type 0
  SameRecord e e' = (e'.id ≡ e.id) × (e'.outcome ≡ e.outcome)

  pub maybe_write_raw_payload-same :
      (e : AuditEvent) (body : Text) → SameRecord e (maybe_write_raw_payload env e body)
  unfolding maybe_write_raw_payload
  maybe_write_raw_payload-same e body =
      option-intro (SameRecord e) env.raw_payloads _ _ (λ unset. (refl, refl))
        (λ write set.
          if-intro (SameRecord e) (non_empty body) _ _
            (λ some_body.
              option-intro (SameRecord e) (write e.id body) _ _ (λ failed. (refl, refl))
                (λ ref written. (refl, refl)))
            (λ no_body. (refl, refl)))

  pub forbid_tool-IsRecorded :
      (m : Metrics) (enforcement name : Text) (tool : AuditEvent) (sent : Option UpstreamRequest)
      → Steady c.metrics m
      → Recorded c (forbid_tool env http cfg (record c { metrics = m }) enforcement tool name sent)
  unfolding forbid_tool append_argument_metadata Matches is_denied
  forbid_tool-IsRecorded m enforcement name tool sent (active, total, blocked) = record {
    before = tool ∷ [];
    last =
        append_argument_metadata env (record c.preflight { outcome = outcome_blocked })
          ((codes "blocked_commandment", text name) ∷ (codes "enforcement", text enforcement) ∷ []);
    events = refl;
    identified = refl;
    outcome = refl;
    active = ap count_down active;
    total = total;
    blocked = ap count_up blocked;
  }

  -- A reply that the end of the handler may give to a response with a status.
  abbrev Settles : Reply → NormalizedResponse → ℕ → Type 0
  Settles (error s kind message id) norm status = (s ≡ 502) × (non_empty norm.error_type ≡ true)
  Settles (response s headers body) norm status = s ≡ status

  Settles-granted :
      (norm : NormalizedResponse) (status : ℕ) (reply : Reply)
      → Settles reply norm status
      → is_denied reply ≡ false
  unfolding is_denied
  Settles-granted norm status (error s kind message id) (bad, is_error) = rw bad refl
  Settles-granted norm status (response s headers body) same = refl

  settled_event-Matches :
      (norm : NormalizedResponse) (status first_token_at : ℕ) (reply : Reply)
      → c.preflight.outcome ≡ outcome_success
      → Settles reply norm status
      → Matches reply (settled_event env http cfg c norm status first_token_at).outcome
  unfolding settled_event append_argument_metadata Matches
  settled_event-Matches norm status at (error s kind message id) begun (bad, is_error) =
      rw (bad, is_error) (ground arith)
  settled_event-Matches norm status at (response s headers body) begun same =
      rw (same, begun)
        (if-intro
          (λ (o : Text). (o ≡ outcome_failure) ⊎ ((leb 400 status ≡ false) × (o ≡ outcome_success)))
          (leb 400 status || non_empty norm.error_type) _ _ (λ bad. inl refl)
          (λ good. inr (ground (arith, good), refl)))

  settled_event-id :
      (norm : NormalizedResponse) (status first_token_at : ℕ)
      → (settled_event env http cfg c norm status first_token_at).id ≡ c.preflight.id
  unfolding settled_event append_argument_metadata
  settled_event-id norm status at = refl

  pub settle-IsRecorded :
      (m : Metrics) (norm : NormalizedResponse) (status first_token_at : ℕ) (reply : Reply)
      (sent : Option UpstreamRequest)
      → Steady c.metrics m
      → c.preflight.outcome ≡ outcome_success
      → Settles reply norm status
      → Recorded c (settle env http cfg c m norm status first_token_at reply sent)
  unfolding settle
  settle-IsRecorded m norm status at reply sent steady begun settles =
      let e = settled_event env http cfg c norm status at in
      let (same_id, same_outcome) = maybe_write_raw_payload-same e c.body in
      answer-IsRecorded c m reply (maybe_write_raw_payload env e c.body) sent steady
        (same_id ∙ settled_event-id norm status at) (Settles-granted norm status reply settles)
        (rw same_outcome (settled_event-Matches norm status at reply begun settles))
