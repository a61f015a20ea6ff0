-- ===== src/Routing/Failover.antt =====
-- smolrouter/routing.py: `try_upstream` and `route_request`.
pub mod Laws
use Prim.Native.String
use smol_router.Prelude.{
  ℕ, ◌+◌, String, Bool, true, false, Option, none, some, List, [], ◌∷◌, ◌++◌, ltb, str_eq,
  if◌then◌else◌, Dict, put, Result, ok, err, ◌>>=◌, length,
}
use smol_router.Value.{Value, text}
use smol_router.Routing.Table.{UpstreamInstance, SmartRouter, RouteError, present, find_route}

-- What one HTTP call comes to: a response with its body where that is JSON, else the text of the
-- parser's exception; an exception, with its text; or the deadline of the whole request.
pub data Outcome : Type 0 where
  response : (status_code : ℕ) (json : Result String Value) → Outcome
  timeout_error connect_error other_error : String → Outcome
  deadline : Outcome

-- The network and whoever is behind it, as the program sees them: a call with its URL and its
-- payload has an outcome, and leaves the network changed. The headers are the same in every call.
pub record Network : Type 1 where
  pub State : Type 0
  pub post : State → String → Dict Value → Outcome × State

pub data Failure : Type 0 where
  json_parse_error : String → Failure
  error_data : Value → Failure
  http_status : ℕ → Failure
  timeout connection_error unexpected_error : String → Failure

pub data Attempt : Type 0 where
  succeeded : Value → ℕ → Attempt
  failed : Failure → ℕ → Attempt
  cut_off : Attempt

abbrev pub of_json : ℕ → Result String Value → Attempt
of_json status_code (ok body) = succeeded body status_code
of_json status_code (err e) = failed (json_parse_error e) status_code

abbrev pub of_error : ℕ → Result String Value → Attempt
of_error status_code (ok body) = failed (error_data body) status_code
of_error status_code (err e) = failed (http_status status_code) status_code

unfoldable pub attempt_of : Outcome → Attempt
attempt_of (response status_code json) =
    if ltb status_code 400 then of_json status_code json else of_error status_code json
attempt_of (timeout_error e) = failed (timeout e) 504
attempt_of (connect_error e) = failed (connection_error e) 502
attempt_of (other_error e) = failed (unexpected_error e) 500
attempt_of deadline = cut_off

abbrev pub override_model : Option String → Dict Value → Dict Value
override_model none payload = payload
override_model (some model) payload = put "model" (text model) payload

-- `str(instance)`
unfoldable pub instance_str : UpstreamInstance → String
instance_str i = String.◌++◌ i.name (String.◌++◌ "(" (String.◌++◌ i.url ")"))

-- What `route_request` returns, with the errors of the attempts as they were.
pub data RouteReply : Type 0 where
  served : Value → ℕ → (upstream_used : String) → RouteReply
  request_timeout : RouteReply
  all_upstreams_failed : List (UpstreamInstance × Failure) → ℕ → RouteReply

-- The status code of the reply.
abbrev pub status_of : RouteReply → ℕ
status_of (served body status_code upstream) = status_code
status_of request_timeout = 504
status_of (all_upstreams_failed errors status_code) = status_code

module _ (N : Network) where
  open N use {State, post}

  unfoldable pub try_upstream : UpstreamInstance → Dict Value → String → State → Attempt × State
  try_upstream i payload path net =
      let (outcome, net') =
        post net (String.◌++◌ i.url path) (override_model (present i.model) payload) in
      (attempt_of outcome, net')

  -- Success and the deadline end the loop; `go_on` is the rest of it.
  abbrev pub after_attempt :
      Attempt → UpstreamInstance → State → (Failure → ℕ → RouteReply × State) → RouteReply × State
  after_attempt (succeeded body status_code) i net go_on =
      (served body status_code (instance_str i), net)
  after_attempt (failed failure status_code) i net go_on = go_on failure status_code
  after_attempt cut_off i net go_on = (request_timeout, net)

  -- The loop over the instances, with the errors so far and the last status code.
  unfoldable pub try_in_turn :
      Dict Value
      → String
      → List UpstreamInstance
      → List (UpstreamInstance × Failure)
      → ℕ
      → State
      → RouteReply × State
  try_in_turn payload path [] errors last_status_code net =
      (all_upstreams_failed errors last_status_code, net)
  try_in_turn payload path (i ∷ is) errors last_status_code net =
      let (attempt, net') = try_upstream i payload path net in
      after_attempt attempt i net' (λ failure status_code.
        try_in_turn payload path is (errors ++ (i, failure) ∷ []) status_code net')

  -- `route_request`, on the targets that `find_route` found
  unfoldable pub route_request :
      (String → String → Option Bool)
      → SmartRouter
      → String
      → String
      → Dict Value
      → String
      → State
      → Result RouteError (RouteReply × State)
  route_request search r source_host model payload path net = do
    (instances, model_override) ← find_route search r source_host model
    ok (try_in_turn payload path instances [] 502 net)
