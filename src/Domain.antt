-- ===== src/Domain.antt =====
-- packages/domain/src: the basis point scale that its files share, and what its functions throw,
-- one constructor for each `throw`.
pub mod Allocation
pub mod Shares
pub mod Rebalance
pub mod Projection
pub mod Cash
pub mod OrderRounding
pub mod Band
pub mod WithinAsset
pub mod Decimal
pub mod Money
pub mod Quantity
use portfolio_rebalancer.Prelude.{Text, ℤ, pos}

-- `BASIS_POINT_SCALE`
abbrev pub basis_point_scale : ℤ
basis_point_scale = pos 10000

-- The subject that the messages of `validateUniqueIds` and `validateNonEmptyId` name.
pub data Subject : Type 0 where
  rebalance_asset cash_candidate order_candidate : Subject

pub data DomainError : Type 0 where
  no_assets bad_asset_ids negative_asset empty_portfolio bad_asset_value bad_band : DomainError
  bad_target_total : ℤ → DomainError
  target_out_of_range : DomainError
  weight_out_of_range bad_weight_value : DomainError
  no_rebalance_assets negative_cash negative_need : DomainError
  bad_rebalance_asset : Text → DomainError
  bad_order_amounts negative_available : DomainError
  sell_exceeds_available negative_projection missing_projection missing_result : Text → DomainError
  empty_id repeated_ids : Subject → DomainError
  no_instruments empty_key repeated_keys negative_instrument no_current_value : DomainError
