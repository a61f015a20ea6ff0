-- ===== src/Routing/Failover/Laws.antt =====
-- What a routed request comes to: the failover from one upstream to the next.
use smol_router.Prelude.{
  ℕ, String, ◌≡◌, refl, sym, ap, ◌∙◌, ◌⊎◌, inl, inr, Bool, Option, List, [], ◌∷◌, ◌++◌, Dict, ok,
}
use mathlib.Core.List.{append_assoc, append-nil}
use smol_router.Value.{Value}
use smol_router.Routing.Table.{UpstreamInstance, SmartRouter, find_route}
use smol_router.Routing.Failover.{
  Network, Failure, Attempt, succeeded, failed, cut_off, instance_str, RouteReply, served,
  request_timeout, all_upstreams_failed, try_upstream, try_in_turn, route_request,
}

Attempt-cases :
    (a : Attempt)
    → ((body : Value) × (status_code : ℕ) × (a ≡ succeeded body status_code))
      ⊎ ((failure : Failure) × (status_code : ℕ) × (a ≡ failed failure status_code))
      ⊎ (a ≡ cut_off)
Attempt-cases (succeeded body status_code) = inl (body, status_code, refl)
Attempt-cases (failed failure status_code) = inr (inl (failure, status_code, refl))
Attempt-cases cut_off = inr (inr refl)

module _ (N : Network) (payload : Dict Value) (path : String) where
  open N use {State}

  -- Attempts at the instances, in order, that all fail: their failures, the last status code, and
  -- the networks before and after.
  pub data AllFail
      : List UpstreamInstance
        → List (UpstreamInstance × Failure)
        → ℕ
        → ℕ
        → State
        → State
        → Type 0 where
    none_left : (last : ℕ) (net : State) → AllFail [] [] last last net net
    one_more :
        {is : List UpstreamInstance} {fs : List (UpstreamInstance × Failure)} {last : ℕ}
        {net' : State} (i : UpstreamInstance) (failure : Failure) (before status_code : ℕ)
        (net : State)
        → (try_upstream N i payload path net).0 ≡ failed failure status_code
        → AllFail is fs status_code last (try_upstream N i payload path net).1 net'
        → AllFail (i ∷ is) ((i, failure) ∷ fs) before last net net'

  -- An attempt at one of the instances, behind failed attempts at all instances before it, ends so.
  pub record StopsAt (is : List UpstreamInstance) (start : ℕ) (net : State) (attempt : Attempt)
      (i : UpstreamInstance) (after : State) : Type 0 where
    pub tried : List UpstreamInstance
    pub untried : List UpstreamInstance
    pub failures : List (UpstreamInstance × Failure)
    pub last : ℕ
    pub net_at : State
    pub in_order : is ≡ tried ++ i ∷ untried
    pub all_fail : AllFail tried failures start last net net_at
    pub ends : (try_upstream N i payload path net_at).0 ≡ attempt
    pub leaves : after ≡ (try_upstream N i payload path net_at).1

  abbrev pub Ended :
      List UpstreamInstance
      → List (UpstreamInstance × Failure)
      → ℕ
      → State
      → RouteReply × State
      → Type 0
  Ended is errors start net r =
      ((i : UpstreamInstance) × (body : Value) × (status_code : ℕ) × StopsAt is start net
          (succeeded body status_code) i r.1
        × (r.0 ≡ served body status_code (instance_str i)))
      ⊎ ((i : UpstreamInstance) × StopsAt is start net cut_off i r.1 × (r.0 ≡ request_timeout))
      ⊎ ((fs : List (UpstreamInstance × Failure)) × (last : ℕ) × AllFail is fs start last net r.1
          × (r.0 ≡ all_upstreams_failed (errors ++ fs) last))

  stops_here :
      (i : UpstreamInstance) (is : List UpstreamInstance) (start : ℕ) (net : State) (a : Attempt)
      → (try_upstream N i payload path net).0 ≡ a
      → StopsAt (i ∷ is) start net a i (try_upstream N i payload path net).1
  stops_here i is start net a e = record {
    tried = [];
    untried = is;
    failures = [];
    last = start;
    net_at = net;
    in_order = refl;
    all_fail = none_left start net;
    ends = e;
    leaves = refl;
  }

  stops_later :
      (i : UpstreamInstance) (failure : Failure) (before status_code : ℕ) (net : State)
      {is : List UpstreamInstance} {a : Attempt} {j : UpstreamInstance} {after : State}
      → (try_upstream N i payload path net).0 ≡ failed failure status_code
      → StopsAt is status_code (try_upstream N i payload path net).1 a j after
      → StopsAt (i ∷ is) before net a j after
  stops_later i failure before status_code net e s = record {
    tried = i ∷ s.tried;
    untried = s.untried;
    failures = (i, failure) ∷ s.failures;
    last = s.last;
    net_at = s.net_at;
    in_order = ap (λ l. i ∷ l) s.in_order;
    all_fail = one_more i failure before status_code net e s.all_fail;
    ends = s.ends;
    leaves = s.leaves;
  }

  Ended-later :
      (i : UpstreamInstance) (is : List UpstreamInstance) (failure : Failure)
      (errors : List (UpstreamInstance × Failure)) (before status_code : ℕ) (net : State)
      (r : RouteReply × State)
      → (try_upstream N i payload path net).0 ≡ failed failure status_code
      → Ended is (errors ++ (i, failure) ∷ []) status_code (try_upstream N i payload path net).1 r
      → Ended (i ∷ is) errors before net r
  Ended-later i is failure errors before status_code net r e (inl (j, body, c, s, reply)) =
      inl (j, body, c, stops_later i failure before status_code net e s, reply)
  Ended-later i is failure errors before status_code net r e (inr (inl (j, s, reply))) =
      inr (inl (j, stops_later i failure before status_code net e s, reply))
  Ended-later i is failure errors before status_code net r e (inr (inr (fs, last, all, reply))) =
      inr (
        inr (
          (i, failure) ∷ fs,
          last,
          one_more i failure before status_code net e all,
          reply
              ∙ ap (λ l. all_upstreams_failed l last) (append_assoc errors ((i, failure) ∷ []) fs),
        ))

  try_in_turn-Ended :
      (is : List UpstreamInstance) (errors : List (UpstreamInstance × Failure)) (start : ℕ)
      (net : State)
      → Ended is errors start net (try_in_turn N payload path is errors start net)
  unfolding try_in_turn
  try_in_turn-Ended [] errors start net = inr (
      inr (
        [],
        start,
        none_left start net,
        ap (λ l. all_upstreams_failed l start) (sym (append-nil errors)),
      ))
  try_in_turn-Ended (i ∷ is) errors start net =
      elim (Attempt-cases (try_upstream N i payload path net).0) [
        | inl (body, status_code, e) ↦
            rw e (inl (i, body, status_code, stops_here i is start net _ e, refl))
        | inr (inr e) ↦ rw e (inr (inl (i, stops_here i is start net cut_off e, refl)))
        | inr (inl (failure, status_code, e)) ↦ rw e (
            Ended-later i is failure errors start status_code net _ e (
              try_in_turn-Ended is (errors ++ (i, failure) ∷ []) status_code
                (try_upstream N i payload path net).1))
      ]

  -- A routed request tries the upstreams that its route names, in order. It returns the reply of
  -- the first that succeeds, and then no further one is tried; or it stops at the first attempt
  -- that the deadline cuts off; or all of them fail, and it reports every failure, in order, with
  -- the status code of the last attempt, 502 if there was none.
  pub route_request_lem :
      (search : String → String → Option Bool) (r : SmartRouter) (source_host model : String)
      (net : State) (is : List UpstreamInstance) (model_override : Option String)
      → find_route search r source_host model ≡ ok (is, model_override)
      → (reply : RouteReply × State) × (route_request N search r source_host model payload path net
          ≡ ok reply)
        × Ended is [] 502 net reply
  unfolding route_request
  route_request_lem search r source_host model net is model_override found =
      (try_in_turn N payload path is [] 502 net, rw found, try_in_turn-Ended is [] 502 net)
