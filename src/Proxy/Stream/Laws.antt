-- ===== src/Proxy/Stream/Laws.antt =====
-- The buffered stream against the lines and the events that it came from.
use crabwise.Common.{
  ℕ, ◌+◌, ◌≤◌, ◌≡◌, refl, sym, ap, subst, ◌∙◌, Bool, true, false, Option, none, some, List, [], ◌∷◌,
  ◌++◌, map, foldl, codes, decimal, ◌⊎◌, append_assoc, append-nil, length, length-append, Text,
  arith, ltb, ℤ, inl, inr, if◌then◌else◌,
}
use mathlib.Core.List.{foldl-append}
use crabwise.Common.Result.{Result, ok, err}
use crabwise.Proxy.Provider.{ToolTargets, ToolCallDelta, StreamEvent, Chunk, line, idle, failed}
use crabwise.Proxy.Stream.Gathered.{
  AscendsIndices, lookup_at, gathered, gather-Ascends, gather-lookup,
}
use crabwise.Proxy.Stream.{
  Accumulator, StreamState, BufferedResult, stream_start, accumulate, sort_indices, tool_block,
  payload_of, apply_event, stamp, take_line, buffer_loop, finalize, buffer_sse_stream,
}

abbrev pub all_deltas : List StreamEvent → List ToolCallDelta
all_deltas [] = []
all_deltas (e ∷ es) = e.tool_call_deltas ++ all_deltas es

abbrev pub join_lines : List Text → Text
join_lines [] = []
join_lines (b ∷ bs) = b ++ join_lines bs

-- The events are those of the lines that carry a payload, all of which parse.
abbrev pub Parses : (Text → Result Text StreamEvent) → List Text → List StreamEvent → Type 0
Parses parse [] events = events ≡ []
Parses parse (b ∷ bs) events = elim (payload_of b) [
  | none ↦ Parses parse bs events
  | some payload ↦
      (e : StreamEvent) × (rest : List StreamEvent) × (parse payload ≡ ok e)
      × (events ≡ e ∷ rest)
      × Parses parse bs rest
]

module _ (parse : Text → Result Text StreamEvent) (now max_bytes : ℕ) where
  -- What the loop has done between two states.
  record Reads (s : StreamState) (chunks : List Chunk) (s' : StreamState) : Type 0 where
    bytes : List Text
    events : List StreamEvent
    whole : chunks ≡ map line bytes
    body : s'.body ≡ s.body ++ join_lines bytes
    parses : Parses parse bytes events
    gathers : s'.accumulators ≡ foldl accumulate s.accumulators (all_deltas events)
    fits : length s.body ≤ max_bytes → length s'.body ≤ max_bytes

  -- A line leaves the state, or its payload is parsed and applied.
  abbrev Takes : Text → StreamState → StreamState → Type 0
  Takes b s s' =
      ((payload_of b ≡ none) × (s' ≡ s))
      ⊎ ((p : Text) × (e : StreamEvent) × (payload_of b ≡ some p)
          × (parse p ≡ ok e)
          × (s'.body ≡ s.body)
          × (s'.accumulators ≡ foldl accumulate s.accumulators e.tool_call_deltas))

  take_line-cases :
      (b : Text) (s s' : StreamState) → take_line parse now max_bytes b s ≡ ok s' → Takes b s s'
  unfolding take_line apply_event stamp
  take_line-cases b s s' h = go (payload_of b) refl h
    where
      go :
          (o : Option Text)
          → payload_of b ≡ o
          → (elim o [
            | none ↦ ok s
            | some payload ↦ elim (parse payload) [
              | ok event ↦ ok (apply_event event (stamp now s))
              | err e ↦ err (codes "enforcement_error: failed to parse stream event: " ++ e)
            ]
          ])
            ≡ ok s'
          → Takes b s s'
      go none at k = inl (at, ground arith)
      go (some p) at k = parsed (parse p) refl k
        where
          parsed :
              (r : Result Text StreamEvent)
              → parse p ≡ r
              → (elim r [
                | ok event ↦ ok (apply_event event (stamp now s))
                | err e ↦ err (codes "enforcement_error: failed to parse stream event: " ++ e)
              ])
                ≡ ok s'
              → Takes b s s'
          parsed (ok e) is k = inr (p, e, at, is, ground arith, ground arith)
          parsed (err e) is k = cc

  line-cases :
      (b : Text) (chunks : List Chunk) (s s' : StreamState)
      → buffer_loop parse now max_bytes (line b ∷ chunks) s ≡ ok s'
      → (length s.body + length b ≤ max_bytes)
        × (t : StreamState) × (take_line parse now max_bytes b (record s { body = s.body ++ b })
            ≡ ok t)
        × (buffer_loop parse now max_bytes chunks t ≡ ok s')
  unfolding buffer_loop
  line-cases b chunks s s' h =
      go (ltb max_bytes (length s.body + length b)) refl
        (take_line parse now max_bytes b (record s { body = s.body ++ b })) h
    where
      go :
          (far : Bool)
          → ltb max_bytes (length s.body + length b) ≡ far
          → (r : Result Text StreamState)
          → (if far
              then err (codes "stream buffer exceeded " ++ (decimal max_bytes ++ codes " bytes"))
              else elim r [ err e ↦ err e | ok t ↦ buffer_loop parse now max_bytes chunks t ])
            ≡ ok s'
          → (length s.body + length b ≤ max_bytes)
            × (t : StreamState) × (r ≡ ok t)
            × (buffer_loop parse now max_bytes chunks t ≡ ok s')
      go true is r k = cc
      go false is (err e) k = cc
      go false is (ok t) k = (ground arith, t, refl, k)

  Reads-line :
      (b : Text) (chunks : List Chunk) (s t s' : StreamState)
      → length s.body + length b ≤ max_bytes
      → Takes b (record s { body = s.body ++ b }) t
      → Reads t chunks s'
      → Reads s (line b ∷ chunks) s'
  Reads-line b chunks s t s' fit (inl (quiet, same)) r = record {
    bytes = b ∷ r.bytes;
    events = r.events;
    whole = ap (λ (cs : List Chunk). line b ∷ cs) r.whole;
    body =
        r.body
        ∙ ap (λ (u : StreamState). u.body ++ join_lines r.bytes) same
        ∙ append_assoc s.body b (join_lines r.bytes);
    parses = rw (quiet, Parses) r.parses;
    gathers =
        r.gathers
        ∙ ap (λ (u : StreamState). foldl accumulate u.accumulators (all_deltas r.events)) same;
    fits = λ low. r.fits (ground (arith, same, length-append s.body b));
  }
  Reads-line b chunks s t s' fit (inr (p, e, at, parsed, kept, gathered)) r = record {
    bytes = b ∷ r.bytes;
    events = e ∷ r.events;
    whole = ap (λ (cs : List Chunk). line b ∷ cs) r.whole;
    body =
        r.body
        ∙ ap (λ (u : Text). u ++ join_lines r.bytes) kept
        ∙ append_assoc s.body b (join_lines r.bytes);
    parses = rw (at, Parses) (e, r.events, parsed, refl, r.parses);
    gathers =
        r.gathers
        ∙ ap (λ (u : List Accumulator). foldl accumulate u (all_deltas r.events)) gathered
        ∙ sym (foldl-append accumulate s.accumulators e.tool_call_deltas (all_deltas r.events));
    fits = λ low. r.fits (ground (arith, kept, length-append s.body b));
  }

  buffer_loop-Reads :
      (chunks : List Chunk) (s s' : StreamState)
      → buffer_loop parse now max_bytes chunks s ≡ ok s'
      → Reads s chunks s'
  unfolding buffer_loop
  buffer_loop-Reads [] s s' h =
      let same : s ≡ s' = ground arith in
      subst (λ (t : StreamState). Reads s [] t) same
        (record {
          bytes = [];
          events = [];
          whole = refl;
          body = sym (append-nil s.body);
          parses = refl;
          gathers = refl;
          fits = λ low. low;
        })
  buffer_loop-Reads (idle ∷ chunks) s s' h = cc
  buffer_loop-Reads (failed e ∷ chunks) s s' h = cc
  buffer_loop-Reads (line b ∷ chunks) s s' h =
      let (fit, t, took, rest) = line-cases b chunks s s' h in
      Reads-line b chunks s t s' fit (take_line-cases b (record s { body = s.body ++ b }) t took)
        (buffer_loop-Reads chunks t s' rest)

module _ (valid : Text → Bool) (quote : Text → Text)
    (parse_targets : Text → Text → ToolTargets) where
  -- A stream that is buffered with success.
  pub record IsWhole (parse : Text → Result Text StreamEvent) (max_bytes : ℕ) (chunks : List Chunk)
      (r : BufferedResult) : Type 0 where
    pub bytes : List Text
    pub events : List StreamEvent
    pub accumulators : List Accumulator
    pub whole : chunks ≡ map line bytes
    pub body : r.body ≡ join_lines bytes
    pub bounded : length r.body ≤ max_bytes
    pub parses : Parses parse bytes events
    pub blocks : r.tool_blocks ≡ map (tool_block valid quote parse_targets) accumulators
    pub ascends : AscendsIndices accumulators
    pub gathers : (i : ℤ) → lookup_at i accumulators ≡ gathered i (all_deltas events)

  -- If the buffering of a stream succeeds, then nothing but lines arrived, the body is all of them
  -- in order and at most the limit, every line with a payload parsed to an event, and the tool blocks
  -- are those of accumulators with strictly ascending indices. An index has an accumulator exactly if
  -- a delta of the events has that index, and it holds the last identifier and the last name that are
  -- not empty among these deltas, and the concatenation of their argument fragments, in order.
  pub buffer_sse_stream-IsWhole :
      (parse : Text → Result Text StreamEvent) (now max_bytes : ℕ) (chunks : List Chunk)
      (r : BufferedResult)
      → buffer_sse_stream valid quote parse_targets parse now max_bytes chunks ≡ ok r
      → IsWhole parse max_bytes chunks r
  unfolding buffer_sse_stream finalize
  buffer_sse_stream-IsWhole parse now max_bytes chunks r h =
      go (buffer_loop parse now max_bytes chunks stream_start)
        (λ s e. buffer_loop-Reads parse now max_bytes chunks stream_start s e) h
    where
      go :
          (o : Result Text StreamState)
          → ((s : StreamState) → o ≡ ok s → Reads parse now max_bytes stream_start chunks s)
          → (elim o [ ok s ↦ ok (finalize valid quote parse_targets s) | err e ↦ err e ]) ≡ ok r
          → IsWhole parse max_bytes chunks r
      go (err e) reads k = cc
      go (ok s) reads k =
          let d = reads s refl in
          let same : finalize valid quote parse_targets s ≡ r = ground arith in
          subst (IsWhole parse max_bytes chunks) same (record {
            bytes = d.bytes;
            events = d.events;
            accumulators = sort_indices s.accumulators;
            whole = d.whole;
            body = d.body;
            bounded = d.fits (omega arith);
            parses = d.parses;
            blocks = refl;
            ascends =
                subst (λ (l : List Accumulator). AscendsIndices (sort_indices l)) (sym d.gathers)
                  (gather-Ascends (all_deltas d.events));
            gathers = λ i.
                ap (λ (l : List Accumulator). lookup_at i (sort_indices l)) d.gathers
                ∙ gather-lookup i (all_deltas d.events);
          })
