-- ===== src/ApiClient.antt =====
-- The HTTP client of the frontend (frontend/src/api/client.ts): the module variables, the request
-- interceptor, and the response interceptor that refreshes an expired session once for all the
-- requests that meet it. What runs between two waits is one step of `State`; the outside world
-- (the server, Supabase, the browser's location) comes in as events. What the code does to the
-- outside (a request sent again, a promise settled, a toast, the session event) is appended to a
-- list of effects. A token and an error are texts; a request is known by its number. The callbacks
-- of the queue's promises run behind what the handler does in the same turn, so their effects stand
-- behind its own call of `api.request`, and behind the toast and the session event.
pub mod Conservation
pub mod Session
pub mod Granted
use nestlio.Prelude.{
  ℕ, Bool, true, false, ◌&&◌, not, Option, none, some, List, [], ◌∷◌, ◌++◌, map, ◌==◌,
  if◌then◌else◌, any, String, str_eq, or_else, ◌||◌,
}

-- InternalAxiosRequestConfig with `_retry`, and the Authorization header that the code writes.
pub record Request : Type 0 where
  pub id : ℕ
  pub retry : Bool
  pub authorization : Option String

-- What a rejected response brings: its request and whether the error carries it (`error.config`),
-- the status (none if there is no response), the `detail` of the body, and the error itself.
pub record Failure : Type 0 where
  pub request : Request
  pub has_config : Bool
  pub status : Option ℕ
  pub detail : Option String
  pub reason : String

pub data Effect : Type 0 where
  -- api.request(config): the request goes out again, with its header.
  resend : Request → Effect
  -- The caller's promise is rejected with this reason.
  reject : ℕ → String → Effect
  toast : String → Effect
  session_expired : Effect

-- The module's variables. `refreshing` is the request that waits for `refreshSession`, with the
-- reason of its failure: the local variables of the handler across its `await`.
pub record State : Type 0 where
  pub is_refreshing : Bool
  pub failed_queue : List Request
  pub cached_token : Option String
  pub refreshing : Option (Request × String)
  pub effects : List Effect

abbrev pub init : State
init = record {
  is_refreshing = false;
  failed_queue = [];
  cached_token = none;
  refreshing = none;
  effects = [];
}

abbrev pub removed_user_detail : String
removed_user_detail = "가구에서 제외된 계정입니다. 다시 로그인해 주세요."

abbrev pub expired_message : String
expired_message = "세션이 만료되었습니다. 다시 로그인해 주세요."

abbrev pub removed_message : String
removed_message = "배우자에 의해 가구에서 제외되었습니다. 다시 로그인해 주세요."

abbrev pub emit : State → List Effect → State
emit s more = record s { effects = s.effects ++ more }

-- `Bearer ${token}`, by its token.
abbrev pub authorize : String → Request → Request
authorize token r = record r { authorization = some token }

-- The callbacks of a queue entry: resolved, it goes out again with the new token; rejected, so is
-- its caller.
abbrev resolve_entry : String → Request → Effect
resolve_entry token r = resend (authorize token r)

abbrev reject_entry : String → Request → Effect
reject_entry reason r = reject r.id reason

-- processQueue(error, token).
unfoldable pub process_queue : Option String → String → State → State
process_queue (some error) token s = record s {
  failed_queue = [];
  effects = s.effects ++ map (reject_entry error) s.failed_queue;
}
process_queue none token s = record s {
  failed_queue = [];
  effects = s.effects ++ map (resolve_entry token) s.failed_queue;
}

-- window.location.pathname !== ROUTES.login, and the two calls under it.
unfoldable pub expire_session : Bool → String → State → State
expire_session on_login message s =
    if on_login then s else emit s (toast message ∷ session_expired ∷ [])

-- status === 401.
unfoldable pub has_status : ℕ → Option ℕ → Bool
has_status n none = false
has_status n (some k) = k == n

unfoldable pub is_removed_detail : Option String → Bool
is_removed_detail none = false
is_removed_detail (some d) = str_eq d removed_user_detail

-- A 401 whose request has not been sent again by this handler: wait in the queue if a refresh is
-- under way, otherwise start one.
unfoldable pub on_unauthorized : Request → String → State → State
on_unauthorized r reason s =
    if s.is_refreshing
    then record s { failed_queue = s.failed_queue ++ r ∷ [] }
    else record s { is_refreshing = true; refreshing = some (record r { retry = true }, reason) }

-- The rest of the handler: the 403 of a removed account, and the rejection of every error.
unfoldable pub on_other : Bool → Failure → State → State
unfolding has_status is_removed_detail expire_session
on_other on_login f s =
    emit
      (if has_status 403 f.status && is_removed_detail f.detail
        then expire_session on_login removed_message s
        else s)
      (reject f.request.id f.reason ∷ [])

-- The error handler up to its first wait or its end.
unfoldable pub on_error : Bool → Failure → State → State
unfolding has_status on_unauthorized on_other
on_error on_login f s =
    if has_status 401 f.status && f.has_config && not f.request.retry
    then on_unauthorized f.request f.reason s
    else on_other on_login f s

-- What supabase.auth.refreshSession() brings.
pub data Refreshed : Type 0 where
  token : String → Refreshed
  no_session : Refreshed
  failed : String → Refreshed

-- A refresh without a session: the user is told, then the queue is rejected with `error`, and
-- last the request that asked for the refresh with the reason of its failure.
unfoldable pub give_up : Bool → Request → String → String → State → State
unfolding expire_session process_queue
give_up on_login r reason error s =
    emit
      (process_queue (some error) "" (
        expire_session on_login expired_message
          (record s { is_refreshing = false; refreshing = none })))
      (reject r.id reason ∷ [])

unfoldable pub resume : Bool → Refreshed → Option (Request × String) → State → State
unfolding process_queue give_up
resume on_login result none s = s
resume on_login (token t) (some (r, reason)) s =
    let idle = record s { cached_token = some t; is_refreshing = false; refreshing = none } in
    process_queue none t (emit idle (resend (authorize t r) ∷ []))
resume on_login no_session (some (r, reason)) s = give_up on_login r reason reason s
resume on_login (failed error) (some (r, reason)) s = give_up on_login r reason error s

-- The error handler from the answer of `refreshSession` to its end.
unfoldable pub on_refreshed : Bool → Refreshed → State → State
unfolding resume
on_refreshed on_login result s = resume on_login result s.refreshing s

-- onAuthStateChange and the first getSession.
unfoldable pub on_auth_state : Option String → State → State
on_auth_state session s = record s { cached_token = session }

-- The request interceptor: the cached token, or that of the session that Supabase keeps.
unfoldable pub attach_token : State → Option String → Request → Request
attach_token s session r = elim s.cached_token [
  | some t ↦ authorize t r
  | none ↦ elim session [ some t ↦ authorize t r | none ↦ r ]
]

-- What the outside can do, and the state after a sequence of it.
pub data Event : Type 0 where
  failure : Bool → Failure → Event
  refreshed : Bool → Refreshed → Event
  auth_state : Option String → Event

unfoldable pub step : Event → State → State
unfolding on_error on_refreshed on_auth_state
step (failure on_login f) s = on_error on_login f s
step (refreshed on_login result) s = on_refreshed on_login result s
step (auth_state session) s = on_auth_state session s

unfoldable pub run : List Event → State → State
unfolding step
run [] s = s
run (e ∷ es) s = run es (step e s)

-- The errors of a request as axios-retry sees them, and its retry condition: no response, a method
-- without effects on the server, and a timeout or a network error.
pub record NetworkFailure : Type 0 where
  pub has_response : Bool
  pub method : Option String
  pub code : Option String
  pub is_network_error : Bool

unfoldable pub retry_condition : NetworkFailure → Bool
retry_condition e =
    not e.has_response
    && any (λ m. str_eq m (or_else e.method "")) ("get" ∷ "head" ∷ "options" ∷ [])
    && (str_eq (or_else e.code "") "ECONNABORTED" || e.is_network_error)
