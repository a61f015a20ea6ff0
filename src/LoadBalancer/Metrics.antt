-- ===== src/LoadBalancer/Metrics.antt =====
-- smolrouter/load_balancer.py: `_update_instance_metrics`, `_update_host_metrics` and
-- `_update_global_stats`.
use smol_router.Prelude.{ℕ, ◌+◌, ◌-◌, ◌*◌, Bool, true, false, not, ◌&&◌, ltb, if◌then◌else◌}
use smol_router.LoadBalancer.Runtime.{Runtime}
use smol_router.LoadBalancer.Types.{HostMetrics, ModelInstance, LoadBalancerStats}

module _ (R : Runtime) where
  open R use {Float, from_ℕ, add, sub, mul, div, lt, hostname, port}

  -- `(avg * (n - 1) + x) / n`
  abbrev pub running_mean : Float → ℕ → Float → Float
  running_mean avg n x = div (add (mul avg (from_ℕ (n - 1))) x) (from_ℕ n)

  unfoldable pub update_instance_metrics : Float → Float → ModelInstance R → ModelInstance R
  update_instance_metrics response_time ttft i =
      if ltb 0 i.total_requests
      then record i {
        avg_response_time = running_mean i.avg_response_time i.total_requests response_time;
        avg_ttft =
            if lt (from_ℕ 0) ttft
            then running_mean i.avg_ttft i.total_requests ttft
            else i.avg_ttft;
      }
      else i

  -- The health of a host by its failure rate: above 1/2 it is unhealthy, below 1/10 healthy again,
  -- both after more than 10 requests. `f / t > 0.5` is `t < 2 f`.
  unfoldable pub judge_host : HostMetrics R → HostMetrics R
  judge_host host =
      if ltb 10 host.total_requests
      then (if ltb host.total_requests (host.failure_count * 2) && host.is_healthy
          then record host { is_healthy = false }
          else if ltb (host.failure_count * 10) host.total_requests && not host.is_healthy
          then record host { is_healthy = true }
          else host)
      else host

  unfoldable pub update_host_metrics : Float → Bool → Float → Float → HostMetrics R → HostMetrics R
  update_host_metrics response_time success ttft now host =
      let total = host.total_requests + 1 in
      judge_host (record host {
        active_requests = host.active_requests - 1;
        total_requests = total;
        last_seen = now;
        success_count = if success then host.success_count + 1 else host.success_count;
        failure_count = if success then host.failure_count else host.failure_count + 1;
        avg_response_time = running_mean host.avg_response_time total response_time;
        avg_ttft =
            if lt (from_ℕ 0) ttft then running_mean host.avg_ttft total ttft else host.avg_ttft;
      })

  -- `_update_global_stats`, its writes to the instance
  unfoldable pub count_result : Bool → ModelInstance R → ModelInstance R
  count_result success i =
      if success then record i { success_count = i.success_count + 1 } else record i {
        failure_count = i.failure_count + 1;
        is_healthy =
            if ltb 10 i.total_requests && ltb i.total_requests ((i.failure_count + 1) * 2)
            then false
            else i.is_healthy;
      }

  -- and its writes to `self.stats`
  unfoldable pub count_globally : Bool → LoadBalancerStats R → LoadBalancerStats R
  count_globally success t =
      if success
      then record t {
        total_requests = t.total_requests + 1;
        successful_requests = t.successful_requests + 1;
      }
      else record t {
        total_requests = t.total_requests + 1;
        failed_requests = t.failed_requests + 1;
      }
