-- ===== src/Application/ShadowPlan/Instruments.antt =====
-- packages/application/src/shadow-plan.ts, allocateDesiredInstrumentValues: the desired value of an asset
-- class by the points of its instruments, with the largest remainders rounded up.
use portfolio_rebalancer.Prelude.{
  ℤ, pos, ◌-ℤ◌, ◌*ℤ◌, ◌/ℤ◌, ◌%ℤ◌, sum_ℤ, Text, Option, none, some, List, map,
}
use portfolio_rebalancer.Domain.{basis_point_scale}
use portfolio_rebalancer.Domain.Shares.{Provisional, bonus_ids, award}
use portfolio_rebalancer.Application.ShadowPlan.{
  ShadowPlanInstrumentInput, ShadowPlanAssetClassInput, ShadowInstrumentDecision, instrument_key,
}

-- An entry of `provisional`.
unfoldable pub provisional_value : ℤ → ShadowPlanInstrumentInput → Provisional
provisional_value desired instrument = record {
  id = instrument_key instrument;
  value = desired *ℤ instrument.target_within_asset_points /ℤ basis_point_scale;
  remainder = desired *ℤ instrument.target_within_asset_points %ℤ basis_point_scale;
}

-- `instrument.priceMinor as bigint`: a null, which is compared with `0n` only, counts as 0.
abbrev pub price_of : Option ℤ → ℤ
price_of none = pos 0
price_of (some price) = price

-- The decision for an instrument with this desired value.
abbrev pub instrument_decision :
    ShadowPlanAssetClassInput → ShadowPlanInstrumentInput → ℤ → ShadowInstrumentDecision
instrument_decision asset instrument desired = record {
  instrument_key = instrument_key instrument;
  asset_class_id = asset.id;
  symbol = instrument.symbol;
  current_value_minor = instrument.current_value_minor;
  desired_value_minor = desired;
  delta_minor = desired -ℤ instrument.current_value_minor;
  target_within_asset_points = instrument.target_within_asset_points;
  current_quantity = instrument.current_quantity;
  price_minor = price_of instrument.price_minor;
  available_sell_quantity = instrument.available_sell_quantity;
}

-- `bonusKeys`
abbrev pub bonus_keys : ℤ → List ShadowPlanInstrumentInput → List Text
bonus_keys desired instruments =
    let provisional = map (provisional_value desired) instruments in
    bonus_ids (desired -ℤ sum_ℤ (λ (item : Provisional). item.value) provisional) provisional

unfoldable pub allocate_desired_instrument_values :
    ShadowPlanAssetClassInput → ℤ → List ShadowInstrumentDecision
allocate_desired_instrument_values asset desired =
    map
      (λ instrument.
        instrument_decision asset instrument
          (award (bonus_keys desired asset.instruments) (provisional_value desired instrument)))
      asset.instruments
