-- ===== src/Domain/Projection/Returns.antt =====
-- When a projection returns.
use portfolio_rebalancer.Prelude.{
  pos, ◌≤ℤ◌, List, map, All, All-map, ok, >>=-eq-ok, map_ok, map_ok-All, map_ok-eq, arith, ◌≡◌,
  refl, ◌↔◌, subst,
}
use portfolio_rebalancer.Domain.Allocation.{calculate_allocation_snapshot}
use portfolio_rebalancer.Domain.Allocation.Valid.{
  snapshot_of, snapshot_ok→IsEvaluable, IsEvaluable→snapshot_ok,
}
use portfolio_rebalancer.Domain.Rebalance.{validate_rebalance_assets, to_allocation_input}
use portfolio_rebalancer.Domain.Rebalance.Valid.{
  IsRebalanceable, IsWellFormed-iff, IsEvaluable→IsRebalanceable, IsRebalanceable→IsEvaluable,
}
use portfolio_rebalancer.Domain.Projection.{
  ProjectedAllocationInput, ProjectedAllocationResult, project_input,
  project_allocation_after_rounded_trades,
}
use portfolio_rebalancer.Domain.Projection.Conserved.{
  traded, allocation_at, project_input-traded, project_input-nonnegative, all-projected,
}

nonnegative-project_input :
    (input : ProjectedAllocationInput)
    → pos 0 ≤ℤ (traded input).value_minor
    → project_input input ≡ ok (traded input)
unfolding project_input
nonnegative-project_input input h = ground arith

-- A projection returns exactly when no trade takes more than the asset has and the portfolio with its
-- trades is one for which targets can be calculated.
pub projection_returns_iff :
    (inputs : List ProjectedAllocationInput)
    → ((r : ProjectedAllocationResult) × (project_allocation_after_rounded_trades inputs ≡ ok r))
      ↔ (All (λ input. pos 0 ≤ℤ (traded input).value_minor) inputs
          × IsRebalanceable (map traded inputs))
unfolding project_allocation_after_rounded_trades
projection_returns_iff inputs = (
  λ (r, h).
      let (ps, first, rest) = >>=-eq-ok (map_ok project_input inputs) _ h in
      let (e, all) = map_ok-eq project_input traded project_input-traded inputs first in
      let (u, second, more) = >>=-eq-ok (validate_rebalance_assets ps) _ rest in
      let (s, third, last) =
        >>=-eq-ok (calculate_allocation_snapshot (map to_allocation_input ps)) _ more in
      (
        All-map project_input-nonnegative inputs all,
        subst IsRebalanceable e (
            IsEvaluable→IsRebalanceable ps ((IsWellFormed-iff ps).0 second)
              (snapshot_ok→IsEvaluable (map to_allocation_input ps) third).0),
      ),
  λ (nonnegative, v).
      let projected = map traded inputs in
      let snapshot = snapshot_of (map to_allocation_input projected) in
      (
        record {
          total_value_minor = snapshot.total_value_minor;
          allocations = map (allocation_at snapshot.total_value_minor) projected;
        },
        rw
            (
              map_ok-All project_input traded inputs
                  (All-map nonnegative-project_input inputs nonnegative),
              (IsWellFormed-iff projected).1 v.well_formed,
              IsEvaluable→snapshot_ok (map to_allocation_input projected)
                  (IsRebalanceable→IsEvaluable projected v),
              all-projected projected snapshot.total_value_minor v.well_formed.distinct,
            )
            refl,
      ),
)
