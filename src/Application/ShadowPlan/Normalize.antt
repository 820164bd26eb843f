-- ===== src/Application/ShadowPlan/Normalize.antt =====
-- packages/application/src/shadow-plan.ts, validateAndNormalizeInput. An issue is an error.
use portfolio_rebalancer.Prelude.{
  ℕ, ℤ, pos, ◌+ℤ◌, ◌*ℤ◌, ltb_ℤ, leb_ℤ, eq_ℤ, sum_ℤ, Text, text, text_eq, compare_text, contains,
  is_blank, trim, sort, leb, ◌==◌, Bool, true, false, not, ◌&&◌, ◌||◌, Option, none, some, List, [],
  ◌∷◌, map, filter, length, any, all, if◌then◌else◌, Ordering, Result, ok, err, ◌>>=◌, ◌>>◌,
  throw_if,
}
use portfolio_rebalancer.Domain.{basis_point_scale}
use portfolio_rebalancer.Domain.Allocation.{has_repeats}
use portfolio_rebalancer.Application.ShadowPlan.{
  ShadowPlanReasonCode, identity_missing, identity_mismatch, managed_cash_unset, cash_input_invalid,
  cash_asset_invalid, portfolio_total_invalid, asset_input_invalid, asset_value_mismatch,
  within_asset_allocation_invalid, duplicate_asset_class, duplicate_instrument,
  instrument_input_invalid, instrument_value_mismatch, price_missing_or_invalid, unsupported_market,
  unsupported_currency, unsupported_order_prerequisite, AssetKind, securities, cash, is_cash,
  ShadowPlanIdentityInput, ShadowOrderPrerequisitesInput, ShadowPlanInstrumentInput,
  ShadowPlanAssetClassInput, CreateShadowPlanInput, NormalizedInput, instrument_key,
}

-- `value === null || value.trim().length === 0`
abbrev pub is_missing : Option Text → Bool
is_missing none = true
is_missing (some value) = is_blank value

-- `left !== right`
abbrev pub differs : Option Text → Option Text → Bool
differs none none = false
differs none (some right) = true
differs (some left) none = true
differs (some left) (some right) = not (text_eq left right)

abbrev pub has_missing : ShadowPlanIdentityInput → Bool
has_missing identity = any is_missing (
    identity.pinned_snapshot_id ∷ identity.current_snapshot_id ∷ identity.pinned_snapshot_digest
    ∷ identity.current_snapshot_digest ∷ identity.pinned_config_version_id
    ∷ identity.current_config_version_id ∷ [])

abbrev pub has_mismatch : ShadowPlanIdentityInput → Bool
has_mismatch identity =
    differs identity.pinned_snapshot_id identity.current_snapshot_id
    || differs identity.pinned_snapshot_digest identity.current_snapshot_digest
    || differs identity.pinned_config_version_id identity.current_config_version_id

abbrev pub is_upper_or_digit : ℕ → Bool
is_upper_or_digit c = leb 65 c && leb c 90 || leb 48 c && leb c 57

-- `/^[A-Z0-9]{6}$/`
abbrev pub is_symbol : Text → Bool
is_symbol s = length s == 6 && all is_upper_or_digit s

abbrev pub is_id_unit : ℕ → Bool
is_id_unit c = is_upper_or_digit c || leb 97 c && leb c 122 || c == 95 || c == 45

-- `/^[A-Za-z0-9_-]+$/`
abbrev pub is_asset_id : Text → Bool
is_asset_id s = not (length s == 0) && all is_id_unit s

abbrev pub is_bad_id : ShadowPlanAssetClassInput → Bool
is_bad_id asset =
    is_blank asset.id || not (text_eq asset.id (trim asset.id)) || not (is_asset_id asset.id)

abbrev pub by_id : ShadowPlanAssetClassInput → ShadowPlanAssetClassInput → Ordering
by_id left right = compare_text left.id right.id

abbrev pub by_instrument_key : ShadowPlanInstrumentInput → ShadowPlanInstrumentInput → Ordering
by_instrument_key left right = compare_text (instrument_key left) (instrument_key right)

abbrev pub is_bad_sellable : Option ℤ → ℤ → Bool
is_bad_sellable none current = false
is_bad_sellable (some available) current = ltb_ℤ available (pos 0) || ltb_ℤ current available

abbrev pub is_bad_instrument : ShadowPlanInstrumentInput → Bool
is_bad_instrument instrument =
    not (is_symbol instrument.symbol)
    || ltb_ℤ instrument.current_value_minor (pos 0)
    || ltb_ℤ instrument.target_within_asset_points (pos 0)
    || ltb_ℤ instrument.current_quantity (pos 0)
    || is_bad_sellable instrument.available_sell_quantity instrument.current_quantity

-- A positive price.
abbrev pub priced : Option ℤ → Result ShadowPlanReasonCode ℤ
priced none = err price_missing_or_invalid
priced (some price) = if leb_ℤ price (pos 0) then err price_missing_or_invalid else ok price

-- What the loop over the instruments of an asset class has come to: the keys of every class so far.
pub record InstrumentTotals : Type 0 where
  pub keys : List Text
  pub value : ℤ
  pub points : ℤ

unfoldable pub check_instruments :
    InstrumentTotals → List ShadowPlanInstrumentInput → Result ShadowPlanReasonCode InstrumentTotals
check_instruments totals [] = ok totals
check_instruments totals (instrument ∷ instruments) = do
  throw_if (contains totals.keys (instrument_key instrument)) duplicate_instrument
  throw_if (not (text_eq instrument.market_country (text "KR"))) unsupported_market
  throw_if (not (text_eq instrument.currency (text "KRW"))) unsupported_currency
  throw_if (is_bad_instrument instrument) instrument_input_invalid
  price ← priced instrument.price_minor
  throw_if (not (eq_ℤ instrument.current_value_minor (instrument.current_quantity *ℤ price)))
      instrument_value_mismatch
  check_instruments
      (record {
        keys = instrument_key instrument ∷ totals.keys;
        value = totals.value +ℤ instrument.current_value_minor;
        points = totals.points +ℤ instrument.target_within_asset_points;
      })
      instruments

abbrev pub is_bad_class : ShadowPlanAssetClassInput → Bool
is_bad_class asset =
    ltb_ℤ asset.current_value_minor (pos 0)
    || ltb_ℤ asset.target_basis_points (pos 0)
    || ltb_ℤ asset.lower_basis_points (pos 0)
    || ltb_ℤ asset.target_basis_points asset.lower_basis_points
    || ltb_ℤ asset.upper_basis_points asset.target_basis_points
    || ltb_ℤ basis_point_scale asset.upper_basis_points

-- A class without instruments has no value and no target.
abbrev pub is_not_vacant : ShadowPlanAssetClassInput → Bool
is_not_vacant asset =
    not (eq_ℤ asset.current_value_minor (pos 0))
    || not (eq_ℤ asset.target_basis_points (pos 0))
    || not (eq_ℤ asset.lower_basis_points (pos 0))
    || not (eq_ℤ asset.upper_basis_points (pos 0))

-- `{ ...asset, instruments }`
abbrev pub with_instruments :
    ShadowPlanAssetClassInput → List ShadowPlanInstrumentInput → ShadowPlanAssetClassInput
with_instruments asset instruments = record (asset) { instruments = instruments }

pub record CheckedClass : Type 0 where
  pub keys : List Text
  pub asset : ShadowPlanAssetClassInput

abbrev pub checked_as :
    List Text → ShadowPlanAssetClassInput → List ShadowPlanInstrumentInput → CheckedClass
checked_as keys asset instruments = record {
  keys = keys;
  asset = with_instruments asset instruments;
}

abbrev pub check_securities :
    List Text
    → ShadowPlanAssetClassInput
    → List ShadowPlanInstrumentInput
    → Result ShadowPlanReasonCode CheckedClass
check_securities keys asset [] = do
  throw_if (is_not_vacant asset) within_asset_allocation_invalid
  ok (checked_as keys asset [])
check_securities keys asset (instrument ∷ instruments) = do
  let sorted = sort by_instrument_key (instrument ∷ instruments)
  totals ← check_instruments (record { keys = keys; value = pos 0; points = pos 0 }) sorted
  throw_if (not (eq_ℤ totals.points basis_point_scale)) within_asset_allocation_invalid
  throw_if (not (eq_ℤ totals.value asset.current_value_minor)) asset_value_mismatch
  ok (checked_as totals.keys asset sorted)

abbrev pub check_kind :
    List Text → ShadowPlanAssetClassInput → AssetKind → Result ShadowPlanReasonCode CheckedClass
check_kind keys asset cash = ok (checked_as keys asset [])
check_kind keys asset securities = check_securities keys asset asset.instruments

-- The loop over the sorted asset classes.
unfoldable pub check_classes :
    List Text
    → List ShadowPlanAssetClassInput
    → Result ShadowPlanReasonCode (List ShadowPlanAssetClassInput)
check_classes keys [] = ok []
check_classes keys (asset ∷ assets) = do
  throw_if (is_bad_class asset) asset_input_invalid
  checked ← check_kind keys asset asset.kind
  rest ← check_classes checked.keys assets
  ok (checked.asset ∷ rest)

-- The one cash class, with the managed cash as its value.
abbrev pub cash_class :
    ℤ → List ShadowPlanAssetClassInput → Result ShadowPlanReasonCode ShadowPlanAssetClassInput
cash_class managed [] = err cash_asset_invalid
cash_class managed (asset ∷ []) =
    if not (length asset.instruments == 0) || not (eq_ℤ asset.current_value_minor managed)
    then err cash_asset_invalid
    else ok asset
cash_class managed (asset ∷ other ∷ assets) = err cash_asset_invalid

abbrev pub required_cash : Option ℤ → Result ShadowPlanReasonCode ℤ
required_cash none = err managed_cash_unset
required_cash (some amount) = ok amount

abbrev pub is_unsupported : ShadowOrderPrerequisitesInput → Bool
is_unsupported p =
    not (text_eq p.order_type (text "LIMIT"))
    || not (text_eq p.time_in_force (text "DAY"))
    || not p.whole_shares_only

unfoldable pub validate_and_normalize_input :
    CreateShadowPlanInput → Result ShadowPlanReasonCode NormalizedInput
validate_and_normalize_input input = do
  throw_if (has_missing input.identity) identity_missing
  throw_if (has_mismatch input.identity) identity_mismatch
  managed ← required_cash input.managed_cash_minor
  spendable ← required_cash input.spendable_cash_minor
  throw_if (ltb_ℤ managed (pos 0) || ltb_ℤ spendable (pos 0) || ltb_ℤ managed spendable)
      cash_input_invalid
  throw_if (is_unsupported input.order_prerequisites) unsupported_order_prerequisite
  throw_if (ltb_ℤ input.minimum_order_minor (pos 0) || length input.asset_classes == 0)
      asset_input_invalid
  let sorted = sort by_id input.asset_classes
  throw_if (any is_bad_id sorted) asset_input_invalid
  throw_if (has_repeats (map (λ asset. asset.id) sorted)) duplicate_asset_class
  cash_asset ← cash_class managed (filter (λ asset. is_cash asset.kind) sorted)
  classes ← check_classes [] sorted
  throw_if
      (leb_ℤ (sum_ℤ (λ (asset : ShadowPlanAssetClassInput). asset.current_value_minor) classes)
        (pos 0))
      portfolio_total_invalid
  throw_if
      (not (
        eq_ℤ (sum_ℤ (λ (asset : ShadowPlanAssetClassInput). asset.target_basis_points) classes)
          basis_point_scale))
      asset_input_invalid
  ok (record {
    asset_classes = classes;
    cash_asset_class_id = cash_asset.id;
    spendable_cash_minor = spendable;
    return_policy = input.return_policy;
    minimum_order_minor = input.minimum_order_minor;
  })
