-- ===== src/Billing.antt =====
-- The rows of apps/api/src/services/service-billing.ts (prisma/schema.prisma): the contract of a
-- user, its quotes, card instruments, payment attempts, paid periods and refunds, and what the
-- service is configured with. An instant is in milliseconds since 1970; an id, a random value and a
-- digest is a number; `provider`, `storeId` and `environment` are one `Scope`.
pub mod Tx
pub mod Quotes
pub mod Charge
pub mod Renew
pub mod Dispatch
pub mod Reconcile
pub mod Settle
pub mod Cancel
pub mod Refunds
pub mod Recovery
pub mod Lifecycle
pub mod Ledger
pub mod Writes
pub mod LookupWrites
pub mod Lookups
pub mod Targets
pub mod Sound
pub mod Reservations
pub mod Process
pub mod Progress
pub mod Once
pub mod Fences
pub mod Replays
pub mod Periods
pub mod PeriodWrites
pub mod Coverage
pub mod ContractWrites
pub mod Stopped
pub mod Boundaries
pub mod Reserved
use living_cost_manager.Prelude.{
  ℕ, zero, suc, ◌*◌, Bool, true, false, ◌&&◌, Option, none, some, List, [], ◌∷◌, Text, text_eq, ltb,
  ◌==◌,
}
use living_cost_manager.Subscription.{PlanId}

pub data Mode : Type 0 where
  mock sandbox live : Mode

pub record Scope : Type 0 where
  pub provider : Text
  pub store_id : Text
  pub environment : Mode

abbrev pub mode_eq : Mode → Mode → Bool
mode_eq Mode.mock Mode.mock = true
mode_eq Mode.sandbox Mode.sandbox = true
mode_eq Mode.live Mode.live = true
mode_eq _ _ = false

abbrev pub scope_eq : Scope → Scope → Bool
scope_eq a b =
    text_eq a.provider b.provider
    && (text_eq a.store_id b.store_id && mode_eq a.environment b.environment)

pub data ContractStatus : Type 0 where
  idle active cancel_at_period_end : ContractStatus

pub data CancellationStatus : Type 0 where
  no_cancellation cancellation_pending cancellation_verified : CancellationStatus

pub record Contract : Type 0 where
  pub id : ℕ
  pub user_id : Option ℕ
  pub subject_id : ℕ
  pub scope : Scope
  pub plan_id : Option PlanId
  pub status : ContractStatus
  pub original_anchor : Option ℕ
  pub next_cycle : ℕ
  pub cancel_requested : Bool
  pub renewal_stopped : Bool
  pub provider_cancellation_status : CancellationStatus
  pub version : ℕ
  pub cancellation_verified_version : Option ℕ
  pub renewal_review_required : Bool

-- `approvedVersions`
pub record Versions : Type 0 where
  pub billing : Text
  pub auto_renew : Text
  pub feature_scope : Text
  pub policy : Text
  pub seller : Text

pub record Quote : Type 0 where
  pub id : ℕ
  pub contract_id : ℕ
  pub scope : Scope
  pub channel_id : Text
  pub catalog_version : Text
  pub plan_id : PlanId
  pub total_amount : ℕ
  pub currency : Text
  pub period_months : ℕ
  pub versions : Versions
  pub materials_snapshot : Option (List (Text × Text))
  pub expires_at : ℕ
  pub consumed_at : Option ℕ

pub data InstrumentStatus : Type 0 where
  prepared verified revocation_pending revoked in_manual_review : InstrumentStatus

-- the columns `ciphertext`, `nonce`, `authTag` and `keyVersion`, which are written together
pub record Envelope : Type 0 where
  pub ciphertext : Text
  pub key_version : Text

pub record Instrument : Type 0 where
  pub id : ℕ
  pub contract_id : ℕ
  pub quote_id : ℕ
  pub scope : Scope
  pub issuance_id : ℕ
  pub status : InstrumentStatus
  pub envelope : Option Envelope
  pub verified_at : Option ℕ
  pub revoked_at : Option ℕ
  pub version : ℕ
  pub lease_owner : Option ℕ
  pub lease_until : Option ℕ

pub data AttemptStatus : Type 0 where
  created canceled_before_dispatch dispatch_unknown paid failed refunded : AttemptStatus
  manual_review : AttemptStatus

-- who holds a lease: the dispatch of the charge, or a reconciliation by its random id
pub data Owner : Type 0 where
  dispatcher : Owner
  reconciler : ℕ → Owner

-- an idempotency key: the client's, or the one of a renewal, which is made from the contract; a
-- client's is taken not to be spelled like a renewal's
pub data Key : Type 0 where
  requested_key : Text → Key
  renewal_key : (cycle contract_id : ℕ) → Key

pub data Binding : Type 0 where
  request_binding : ℕ → Binding
  renewal_binding : (previous_id : ℕ) → Binding

pub record Attempt : Type 0 where
  pub id : ℕ
  pub contract_id : ℕ
  pub scope : Scope
  pub quote_id : ℕ
  pub instrument_id : ℕ
  pub cycle : ℕ
  pub payment_id : ℕ
  pub idempotency_key : Key
  pub request_binding : Binding
  pub total_amount : ℕ
  pub currency : Text
  pub billing_version : Text
  pub auto_renew_version : Text
  pub accepted_at : ℕ
  pub status : AttemptStatus
  pub dispatch_at : Option ℕ
  pub lease_owner : Option Owner
  pub lease_until : Option ℕ
  pub fence : ℕ
  pub lookup_count : ℕ
  pub next_lookup_at : Option ℕ
  pub paid_at : Option ℕ
  pub review_required : Bool

pub record Period : Type 0 where
  pub attempt_id : ℕ
  pub contract_id : ℕ
  pub cycle : ℕ
  pub environment : Mode
  pub starts_at : ℕ
  pub ends_at : ℕ
  pub access_ends_at : ℕ
  pub verified_at : ℕ

pub data RefundStatus : Type 0 where
  requested in_dispatch is_verified is_rejected needs_review : RefundStatus

pub record Refund : Type 0 where
  pub id : ℕ
  pub attempt_id : ℕ
  pub scope : Scope
  pub idempotency_key : Text
  pub request_amount : ℕ
  pub reason_code : Text
  pub status : RefundStatus
  pub provider_cancel_id : Option ℕ
  pub verified_amount : Option ℕ
  pub verified_at : Option ℕ
  pub approval_operation_id : Option Text
  pub approval_policy_version : Option Text
  pub lease_owner : Option ℕ
  pub lease_until : Option ℕ
  pub fence : ℕ
  pub lookup_count : ℕ
  pub next_lookup_at : Option ℕ

-- `users` holds the ids of the table `User`
pub record Store : Type 0 where
  pub users : List ℕ
  pub contracts : List Contract
  pub quotes : List Quote
  pub instruments : List Instrument
  pub attempts : List Attempt
  pub periods : List Period
  pub refunds : List Refund

-- what `parseBillingConfiguration` and the provider's adapter tell the service; `enabled` includes
-- that there is a provider and an encryption key
pub record Config : Type 0 where
  pub mode : Mode
  pub scope : Scope
  pub channel_id : Text
  pub key_version : Text
  pub enabled : Bool
  pub issue_instrument : Bool
  pub charge : Bool
  pub renew : Bool
  pub cancel : Bool
  pub refund : Bool
  pub recovers : Bool
  pub approved : Versions
  pub materials : List (Text × Text)
  pub policy_version : Text

abbrev pub is_mock : Mode → Bool
is_mock Mode.mock = true
is_mock _ = false

-- `x && x > now`
abbrev pub is_after : Option ℕ → ℕ → Bool
is_after none now = false
is_after (some t) now = ltb now t

abbrev pub attempt_status_eq : AttemptStatus → AttemptStatus → Bool
attempt_status_eq AttemptStatus.created AttemptStatus.created = true
attempt_status_eq AttemptStatus.canceled_before_dispatch AttemptStatus.canceled_before_dispatch =
    true
attempt_status_eq AttemptStatus.dispatch_unknown AttemptStatus.dispatch_unknown = true
attempt_status_eq AttemptStatus.paid AttemptStatus.paid = true
attempt_status_eq AttemptStatus.failed AttemptStatus.failed = true
attempt_status_eq AttemptStatus.refunded AttemptStatus.refunded = true
attempt_status_eq AttemptStatus.manual_review AttemptStatus.manual_review = true
attempt_status_eq _ _ = false

abbrev pub has_id : ℕ → Attempt → Bool
has_id k a = a.id == k

abbrev pub has_contract_id : ℕ → Contract → Bool
has_contract_id k c = c.id == k

abbrev pub has_quote_id : ℕ → Quote → Bool
has_quote_id k q = q.id == k

abbrev pub has_instrument_id : ℕ → Instrument → Bool
has_instrument_id k i = i.id == k

-- `leaseMs` and `lookupLimit`
abbrev pub lease_ms : ℕ
lease_ms = 30000

abbrev pub lookup_limit : ℕ
lookup_limit = 8
