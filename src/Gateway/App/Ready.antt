-- ===== src/Gateway/App/Ready.antt =====
-- When `/health/ready` says that the gateway is ready.
use mathlib.Core.List.{mem-cons, not-mem-nil, mem-cons_self, mem-cons_of_mem}
use mathlib.Core.Logic.Or
use distributed_model_server.Prelude.{
  &&-eq-true, subst, ◌≡◌, refl, ◌↔◌, inl, inr, Bool, true, [], ◌∷◌, Mem, arith, Bool-cases,
}
use distributed_model_server.Gateway.Registry.{
  HealthState, healthy, is_healthy, WorkerNode, Workers, is_any_worker_healthy,
}
use distributed_model_server.Gateway.State.{GatewayState}
use distributed_model_server.Gateway.App.Endpoints.{health_ready}

-- Some worker of the registry is healthy.
abbrev pub SomeHealthy : Workers → Type 0
SomeHealthy ws = (w : WorkerNode) × Mem w ws × (w.state ≡ healthy)

is_healthy_lem : (s : HealthState) → is_healthy s ≡ true → s ≡ healthy
is_healthy_lem s h = ground arith

any-SomeHealthy : (ws : Workers) → is_any_worker_healthy ws ≡ true → SomeHealthy ws
unfolding is_any_worker_healthy
any-SomeHealthy [] h = cc
any-SomeHealthy (w ∷ ws) h = elim (Bool-cases (is_healthy w.state)) [
  | inl e ↦ (w, mem-cons_self, is_healthy_lem w.state e)
  | inr e ↦ let (v, m, up) = any-SomeHealthy ws (rw e at h) in (v, mem-cons_of_mem w m, up)
]

mem-any :
    (w : WorkerNode) (ws : Workers) → Mem w ws → w.state ≡ healthy → is_any_worker_healthy ws ≡ true
unfolding is_any_worker_healthy
mem-any w [] m h = absurd (not-mem-nil m)
mem-any w (v ∷ ws) m h =
    Or.elim (hlevel) (mem-cons.0 m)
      (λ e.
        let up : v.state ≡ healthy = subst (λ (x : WorkerNode). x.state ≡ healthy) e h in
        ground arith)
      (λ t. ground (arith, mem-any w ws t h))

-- The gateway is ready exactly while it accepts requests and some worker is healthy.
pub health_ready_iff :
    (accepting_requests : Bool) (g : GatewayState)
    → ((health_ready accepting_requests g).status_code ≡ 200)
      ↔ ((accepting_requests ≡ true) × SomeHealthy g.workers)
unfolding health_ready
health_ready_iff accepting g = (
  λ h.
      let (a, up) = &&-eq-true accepting (is_any_worker_healthy g.workers) (ground arith) in
      (a, any-SomeHealthy g.workers up),
  λ h. rw (h.0, mem-any h.1.0 g.workers h.1.1 h.1.2) refl,
)
