-- ===== src/Entitlements/Models.antt =====
-- backend/src/entitlements/domain/models.py. A constructor call is the record passed through its
-- `check_` function, which is `__post_init__`.
use Prim.Native.Char.{code}
use onwlms.Prelude.{
  Bool, Eq, List, Option, String, [], arith, coded_eq, contains, false, if◌then◌else◌, is_some,
  is_unique, leb, ltb, map, nat_eq, none, not, pair_eq, some, string_eq, true, ℕ, ◌&&◌, ◌==◌, ◌||◌,
  ◌∷◌, ◌≡◌,
}
use onwlms.Core.{Result, Uuid, invalid_entitlement, ok, raise_if, ◌>>◌}
use onwlms.Core.Text.{is_blank, text_length}
use onwlms.Core.Time.{DateTime, before, has_no_tzinfo, not_after}

pub data FeatureCode : Type 0 where
  academic moodle_integration ownid_sso mcp hr finance library dormitory : FeatureCode
  advanced_analytics multiple_administrators custom_roles : FeatureCode
  timetable_generation white_label : FeatureCode

pub data SubscriptionStatus : Type 0 where
  trialing active suspended canceled : SubscriptionStatus

pub data UsagePeriod : Type 0 where
  month academic_term absolute : UsagePeriod

abbrev feature_number : FeatureCode → ℕ
feature_number FeatureCode.academic = 0
feature_number FeatureCode.moodle_integration = 1
feature_number FeatureCode.ownid_sso = 2
feature_number FeatureCode.mcp = 3
feature_number FeatureCode.hr = 4
feature_number FeatureCode.finance = 5
feature_number FeatureCode.library = 6
feature_number FeatureCode.dormitory = 7
feature_number FeatureCode.advanced_analytics = 8
feature_number FeatureCode.multiple_administrators = 9
feature_number FeatureCode.custom_roles = 10
feature_number FeatureCode.timetable_generation = 11
feature_number FeatureCode.white_label = 12

pub feature_number_injective : (a b : FeatureCode) → feature_number a ≡ feature_number b → a ≡ b
feature_number_injective a b h = ground arith

instance abbrev pub feature_eq : Eq FeatureCode
feature_eq = coded_eq feature_number feature_number_injective

abbrev subscription_number : SubscriptionStatus → ℕ
subscription_number SubscriptionStatus.trialing = 0
subscription_number SubscriptionStatus.active = 1
subscription_number SubscriptionStatus.suspended = 2
subscription_number SubscriptionStatus.canceled = 3

pub subscription_number_injective :
    (a b : SubscriptionStatus) → subscription_number a ≡ subscription_number b → a ≡ b
subscription_number_injective a b h = ground arith

instance abbrev pub subscription_eq : Eq SubscriptionStatus
subscription_eq = coded_eq subscription_number subscription_number_injective

abbrev pub base_features : List FeatureCode
base_features = FeatureCode.academic ∷ FeatureCode.moodle_integration ∷ FeatureCode.ownid_sso ∷ []

abbrev pub is_base : FeatureCode → Bool
is_base feature = contains feature base_features

pub record UsageLimit : Type 0 where
  pub amount : ℕ
  pub period : UsagePeriod

unfoldable pub check_usage_limit : UsageLimit → Result UsageLimit
check_usage_limit l = do raise_if (leb l.amount 0) invalid_entitlement; ok l

pub record Feature : Type 0 where
  pub id : Uuid
  pub code : FeatureCode
  pub display_name : String
  pub base_included : Bool

abbrev same_bool : Bool → Bool → Bool
same_bool true b = b
same_bool false b = not b

unfoldable pub check_feature : Feature → Result Feature
check_feature f = do
  raise_if (is_blank f.display_name || ltb 120 (text_length f.display_name)) invalid_entitlement
  raise_if (not (same_bool f.base_included (is_base f.code))) invalid_entitlement
  ok f

pub record PlanGrant : Type 0 where
  pub feature : FeatureCode
  pub usage_limit : Option UsageLimit

pub record Plan : Type 0 where
  pub id : Uuid
  pub code : String
  pub display_name : String
  pub grants : List PlanGrant
  pub active : Bool

-- `code.replace("-", "")`
unfoldable pub without_dashes : String → String
without_dashes String.[] = String.[]
without_dashes (String.◌∷◌ c s) =
    let rest = without_dashes s in if code c == 45 then rest else String.◌∷◌ c rest

-- `is_alnum` is `str.isalnum`, whose table is Unicode's.
unfoldable pub check_plan : (String → Bool) → Plan → Result Plan
unfolding without_dashes
check_plan is_alnum p = do
  raise_if
      (text_length p.code == 0
        || ltb 80 (text_length p.code)
        || not (is_alnum (without_dashes p.code)))
      invalid_entitlement
  raise_if (is_blank p.display_name || ltb 120 (text_length p.display_name)) invalid_entitlement
  raise_if (not (is_unique (map (λ g. g.feature) p.grants))) invalid_entitlement
  ok p

pub record Subscription : Type 0 where
  pub id : Uuid
  pub organization_id : Uuid
  pub plan_id : Uuid
  pub status : SubscriptionStatus
  pub starts_at : DateTime
  pub ends_at : Option DateTime

abbrev check_end : DateTime → Option DateTime → Result (Unit {0})
check_end starts_at none = ok tt
check_end starts_at (some ends_at) =
    raise_if (has_no_tzinfo ends_at || not_after ends_at starts_at) invalid_entitlement

unfoldable pub check_subscription : Subscription → Result Subscription
check_subscription s = do
  raise_if (has_no_tzinfo s.starts_at) invalid_entitlement
  check_end s.starts_at s.ends_at
  ok s

-- `end is None or at < end`
abbrev pub until_end : DateTime → Option DateTime → Bool
until_end at none = true
until_end at (some end) = before at end

abbrev pub grants_apply : SubscriptionStatus → Bool
grants_apply SubscriptionStatus.active = true
grants_apply SubscriptionStatus.trialing = true
grants_apply _ = false

-- `Subscription.is_effective`
abbrev pub subscription_is_effective : Subscription → DateTime → Bool
subscription_is_effective s at =
    grants_apply s.status && not_after s.starts_at at && until_end at s.ends_at

-- `_require_status`
abbrev pub require_status : List SubscriptionStatus → Subscription → Result (Unit {0})
require_status allowed s = raise_if (not (contains s.status allowed)) invalid_entitlement

-- A data class is built anew by `replace`, so that its checks run again.
unfoldable pub suspend : Subscription → Result Subscription
unfolding check_subscription
suspend s = do
  require_status (SubscriptionStatus.active ∷ SubscriptionStatus.trialing ∷ []) s
  check_subscription (record s { status = SubscriptionStatus.suspended })

unfoldable pub reactivate : Subscription → Result Subscription
unfolding check_subscription
reactivate s = do
  require_status (SubscriptionStatus.suspended ∷ []) s
  check_subscription (record s { status = SubscriptionStatus.active })

unfoldable pub cancel : Subscription → Result Subscription
unfolding check_subscription
cancel s = do
  require_status
      (SubscriptionStatus.active ∷ SubscriptionStatus.trialing ∷ SubscriptionStatus.suspended ∷ [])
      s
  check_subscription (record s { status = SubscriptionStatus.canceled })

pub record EntitlementOverride : Type 0 where
  pub id : Uuid
  pub organization_id : Uuid
  pub feature : FeatureCode
  pub enabled : Bool
  pub usage_limit : Option UsageLimit
  pub expires_at : Option DateTime

abbrev lacks_zone : Option DateTime → Bool
lacks_zone none = false
lacks_zone (some t) = has_no_tzinfo t

unfoldable pub check_override : EntitlementOverride → Result EntitlementOverride
check_override o = do
  raise_if (not o.enabled && is_some o.usage_limit) invalid_entitlement
  raise_if (lacks_zone o.expires_at) invalid_entitlement
  ok o

-- `EntitlementOverride.is_effective`
abbrev pub override_is_effective : EntitlementOverride → DateTime → Bool
override_is_effective o at = until_end at o.expires_at

pub record EntitlementSnapshot : Type 0 where
  pub plan : Option Plan
  pub subscription : Option Subscription
  pub overrides : List EntitlementOverride

pub record ResolvedEntitlement : Type 0 where
  pub feature : FeatureCode
  pub enabled : Bool
  pub source : String
  pub usage_limit : Option UsageLimit
