-- ===== src/Mutations.antt =====
-- Mutations and what follows them (frontend/src/utils/queryClient.ts,
-- frontend/src/hooks/useCrudMutations.ts, frontend/src/hooks/useGrowlioSyncMutation.ts,
-- frontend/src/hooks/useRecurringMutations.ts, frontend/src/hooks/useInvalidateTransactionRelated.ts).
-- A mutation of the query library calls its function and, once the promise settles, onSuccess or the
-- cache's onError; these mutations have no onError of their own. R stands for the promises that the
-- wrappers of the endpoints return. The world is a component's state, the keys that have been
-- invalidated and the toasts that have been asked for, the oldest first.
pub mod Assets
pub mod Stale
pub mod Refinement
use nestlio.Prelude.{
  Bool, true, false, Option, none, some, List, [], ◌∷◌, ◌++◌, ℕ, String, Text, codes, is_empty,
}
use nestlio.QueryKeys
use nestlio.QueryKeys.{QueryKey, asset_related_keys, transaction_related_keys}
use nestlio.Errors.{Thrown, ErrorObject, extract_error_message}
use nestlio.Toasts.{ToastType}

pub record World (S : Type 0) : Type 0 where
  pub state : S
  pub invalidated : List QueryKey
  pub toasts : List (Text × ToastType)

-- How a promise settles.
pub data Outcome (A : Type 0) : Type 0 where
  resolved : A → Outcome A
  rejected : Thrown → Outcome A

module _ {S : Type 0} where
  unfoldable pub invalidate : List QueryKey → World S → World S
  invalidate keys w = record w { invalidated = w.invalidated ++ keys }

  unfoldable pub show : Text → ToastType → World S → World S
  show message type w = record w { toasts = w.toasts ++ ((message, type) ∷ []) }

  -- `if (message) toast(message, "success")`.
  abbrev pub show_success : Option Text → World S → World S
  show_success none w = w
  show_success (some []) w = w
  show_success (some (c ∷ t)) w = show (c ∷ t) ToastType.success w

  -- onError of createMutationCache.
  unfoldable pub on_error : Thrown → World S → World S
  on_error error w = show (extract_error_message error none) ToastType.error w

  abbrev pub settle : {A : Type 0} → Outcome A → (A → World S → World S) → World S → World S
  settle (Outcome.resolved a) on_success w = on_success a w
  settle (Outcome.rejected error) on_success w = on_error error w

-- `throw new Error(message)` where the function of the api is missing.
abbrev pub call_api : {A R : Type 0} → Option (A → R) → Text → A → Outcome R
call_api none message a = Outcome.rejected (
    Thrown.object
      (record { response = none; is_axios_error = false; code = none; message = some message }))
call_api (some f) message a = Outcome.resolved (f a)

pub record CrudMessages : Type 0 where
  pub create : Option Text
  pub update : Option Text
  pub remove : Option Text

-- The options of useCrudMutations: the callbacks change the component's state.
pub record CrudOptions (C U I R S : Type 0) : Type 0 where
  pub keys : List QueryKey
  pub create : Option (C → R)
  pub update : Option (ℕ × U → R)
  pub remove : Option (ℕ → R)
  pub messages : CrudMessages
  pub on_create_success : Option (I → S → S)
  pub on_update_success : Option (I → S → S)
  pub on_remove_success : Option (S → S)

-- The callbacks, where they are given.
abbrev pub callback : {I S : Type 0} → Option (I → S → S) → I → World S → World S
callback none item w = w
callback (some f) item w = record w { state = f item w.state }

abbrev pub callback_without_item : {S : Type 0} → Option (S → S) → World S → World S
callback_without_item none w = w
callback_without_item (some f) w = record w { state = f w.state }

module _ {C U I R S : Type 0} (options : CrudOptions C U I R S) where
  unfoldable pub create_fn : C → Outcome R
  create_fn payload = call_api options.create (codes "create api not configured") payload

  unfoldable pub update_fn : ℕ × U → Outcome R
  update_fn target = call_api options.update (codes "update api not configured") target

  unfoldable pub remove_fn : ℕ → Outcome R
  remove_fn id = call_api options.remove (codes "remove api not configured") id

  unfoldable pub create_settled : Outcome I → World S → World S
  create_settled outcome w =
      settle outcome
        (λ item v.
          callback options.on_create_success item
            (show_success options.messages.create (invalidate options.keys v)))
        w

  unfoldable pub update_settled : Outcome I → World S → World S
  update_settled outcome w =
      settle outcome
        (λ item v.
          callback options.on_update_success item
            (show_success options.messages.update (invalidate options.keys v)))
        w

  unfoldable pub remove_settled : Outcome I → World S → World S
  remove_settled outcome w =
      settle outcome
        (λ item v.
          callback_without_item options.on_remove_success
            (show_success options.messages.remove (invalidate options.keys v)))
        w

-- useGrowlioSyncMutation.
unfoldable pub sync_settled : {I S : Type 0} → Text → Outcome I → World S → World S
sync_settled success_message outcome w =
    settle outcome
      (λ item v. show success_message ToastType.success (invalidate asset_related_keys v)) w

abbrev pub recurring_related_keys : List QueryKey
recurring_related_keys =
    QueryKeys.recurring
    ∷ (QueryKeys.events_all
        ∷ (QueryKeys.cashflow_plan_all
            ∷ (QueryKeys.annual_plan_all ∷ (QueryKeys.dashboard_all ∷ []))))

-- useRecurringMutations, the mutation that reactivates.
unfoldable pub reactivate_settled :
    {I S : Type 0} → Option Text → Option (I → S → S) → Outcome I → World S → World S
reactivate_settled message on_reactivate_success outcome w =
    settle outcome
      (λ item v.
        callback on_reactivate_success item
          (show_success message (invalidate recurring_related_keys v)))
      w

-- useCreateTransaction.
unfoldable pub transaction_created :
    {I S : Type 0} → (I → World S → World S) → Outcome I → World S → World S
transaction_created on_created outcome w =
    settle outcome (λ created v. on_created created (invalidate transaction_related_keys v)) w
