-- ===== src/ApiClient/Conservation.antt =====
-- No request is lost: each failure is answered once, or waits while a refresh is under way.
use nestlio.Prelude.{
  ℕ, ◌+◌, ◌≡◌, refl, ap, Bool, true, false, ◌&&◌, not, Option, none, some, List, [], ◌∷◌, ◌++◌, map,
  arith, ◌==◌, if◌then◌else◌, String,
}
use nestlio.ApiClient.{
  has_status, is_removed_detail, removed_message, expired_message, Request, Failure, Effect, resend,
  reject, toast, session_expired, State, init, emit, authorize, resolve_entry, reject_entry,
  process_queue, expire_session, on_unauthorized, on_other, on_error, Refreshed, token, no_session,
  failed, give_up, resume, on_refreshed, on_auth_state, Event, failure, refreshed, auth_state, step,
  run,
}

abbrev one_if : Bool → ℕ
one_if true = 1
one_if false = 0

-- How many answers to the request `k` are among the effects, and how often it waits.
abbrev pub answers : ℕ → List Effect → ℕ
answers k [] = 0
answers k (resend r ∷ es) = one_if (r.id == k) + answers k es
answers k (reject i reason ∷ es) = one_if (i == k) + answers k es
answers k (toast m ∷ es) = answers k es
answers k (session_expired ∷ es) = answers k es

abbrev pub queued : ℕ → List Request → ℕ
queued k [] = 0
queued k (r ∷ rs) = one_if (r.id == k) + queued k rs

abbrev pub refresher : ℕ → Option (Request × String) → ℕ
refresher k none = 0
refresher k (some (r, reason)) = one_if (r.id == k)

abbrev pub places : ℕ → State → ℕ
places k s = answers k s.effects + queued k s.failed_queue + refresher k s.refreshing

-- How many of the events are failures of the request `k`.
abbrev pub failures : ℕ → List Event → ℕ
failures k [] = 0
failures k (failure on_login f ∷ es) = one_if (f.request.id == k) + failures k es
failures k (refreshed on_login r ∷ es) = failures k es
failures k (auth_state t ∷ es) = failures k es

answers-append : (k : ℕ) (xs ys : List Effect) → answers k (xs ++ ys) ≡ answers k xs + answers k ys
answers-append k [] ys = omega arith
answers-append k (resend r ∷ es) ys = omega (arith, answers-append k es ys)
answers-append k (reject i reason ∷ es) ys = omega (arith, answers-append k es ys)
answers-append k (toast m ∷ es) ys = answers-append k es ys
answers-append k (session_expired ∷ es) ys = answers-append k es ys

queued-append : (k : ℕ) (xs ys : List Request) → queued k (xs ++ ys) ≡ queued k xs + queued k ys
queued-append k [] ys = omega arith
queued-append k (r ∷ rs) ys = omega (arith, queued-append k rs ys)

answers-resolve :
    (k : ℕ) (t : String) (rs : List Request) → answers k (map (resolve_entry t) rs) ≡ queued k rs
answers-resolve k t [] = refl
answers-resolve k t (r ∷ rs) = omega (arith, answers-resolve k t rs)

answers-reject :
    (k : ℕ) (e : String) (rs : List Request) → answers k (map (reject_entry e) rs) ≡ queued k rs
answers-reject k e [] = refl
answers-reject k e (r ∷ rs) = omega (arith, answers-reject k e rs)

-- A refresh is under way exactly while a request waits for its answer, and only then others queue.
abbrev Waits : Option (Request × String) → Bool → List Request → Type 0
Waits none is_refreshing queue = (is_refreshing ≡ false) × (queue ≡ [])
Waits (some p) is_refreshing queue = is_refreshing ≡ true

abbrev pub IsSettled : State → Type 0
IsSettled s = Waits s.refreshing s.is_refreshing s.failed_queue

module _ (k : ℕ) (b : Bool) (s : State) where
  places-expire_session : (m : String) → places k (expire_session b m s) ≡ places k s
  unfolding expire_session
  places-expire_session m =
      ground (arith, answers-append k s.effects (toast m ∷ session_expired ∷ []))

  places-emit_reject :
      (i : ℕ) (m : String) → places k (emit s (reject i m ∷ [])) ≡ one_if (i == k) + places k s
  places-emit_reject i m = omega (arith, answers-append k s.effects (reject i m ∷ []))

module _ (k : ℕ) (b : Bool) (f : Failure) (s : State) where
  rejected-places :
      (removed : Bool) (m : String)
      → places k
          (emit (if removed then expire_session b m s else s) (reject f.request.id f.reason ∷ []))
        ≡ one_if (f.request.id == k) + places k s
  rejected-places true m = omega (
    arith,
    places-emit_reject k b (expire_session b m s) f.request.id f.reason,
    places-expire_session k b s m,
  )
  rejected-places false m = places-emit_reject k b s f.request.id f.reason

  on_other-places : places k (on_other b f s) ≡ one_if (f.request.id == k) + places k s
  unfolding on_other
  on_other-places =
      rejected-places (has_status 403 f.status && is_removed_detail f.detail) removed_message

  on_unauthorized-places :
      IsSettled s
      → places k (on_unauthorized f.request f.reason s) ≡ one_if (f.request.id == k) + places k s
  unfolding on_unauthorized
  on_unauthorized-places v = ground (arith, queued-append k s.failed_queue (f.request ∷ []))

  by_case :
      IsSettled s
      → (c : Bool)
      → places k (if c then on_unauthorized f.request f.reason s else on_other b f s)
        ≡ one_if (f.request.id == k) + places k s
  by_case v true = on_unauthorized-places v
  by_case v false = on_other-places

  on_error-places :
      IsSettled s → places k (on_error b f s) ≡ one_if (f.request.id == k) + places k s
  unfolding on_error
  on_error-places v = by_case v (has_status 401 f.status && f.has_config && not f.request.retry)

module _ (k : ℕ) (b : Bool) where
  places-process_queue_error :
      (e t : String) (s : State) → places k (process_queue (some e) t s) ≡ places k s
  unfolding process_queue
  places-process_queue_error e t s = omega (
    arith,
    answers-append k s.effects (map (reject_entry e) s.failed_queue),
    answers-reject k e s.failed_queue,
  )

  places-process_queue_token :
      (t : String) (s : State) → places k (process_queue none t s) ≡ places k s
  unfolding process_queue
  places-process_queue_token t s = omega (
    arith,
    answers-append k s.effects (map (resolve_entry t) s.failed_queue),
    answers-resolve k t s.failed_queue,
  )

  -- The user is told, the queue is answered with `e`, the request that waits with `reason`.
  places-give_up :
      (e reason : String) (r : Request) (s : State)
      → places k (give_up b r reason e s) + refresher k s.refreshing
        ≡ one_if (r.id == k) + places k s
  unfolding give_up
  places-give_up e reason r s =
      let idle : State = record s { is_refreshing = false; refreshing = none } in
      let told : State = expire_session b expired_message idle in
      omega (
        arith,
        places-emit_reject k b (process_queue (some e) "" told) r.id reason,
        places-process_queue_error e "" told,
        places-expire_session k b idle expired_message,
      )

  -- A refresh without a session answers the queue with `e` and its own request with `reason`.
  places-refused :
      (e reason : String) (r : Request) (s : State)
      → s.refreshing ≡ some (r, reason)
      → places k (give_up b r reason e s) ≡ places k s
  places-refused e reason r s h = omega (arith, places-give_up e reason r s, ap (refresher k) h)

  places-granted :
      (t reason : String) (r : Request) (s : State)
      → s.refreshing ≡ some (r, reason)
      → places k (resume b (token t) (some (r, reason)) s) ≡ places k s
  unfolding resume process_queue
  places-granted t reason r s h = omega (
    arith,
    answers-append k (s.effects ++ resend (authorize t r) ∷ [])
        (map (resolve_entry t) s.failed_queue),
    answers-append k s.effects (resend (authorize t r) ∷ []),
    answers-resolve k t s.failed_queue,
    ap (refresher k) h,
  )

  places-resume :
      (result : Refreshed) (o : Option (Request × String)) (s : State)
      → s.refreshing ≡ o
      → places k (resume b result o s) ≡ places k s
  unfolding resume
  places-resume result none s h = refl
  places-resume (token t) (some (r, reason)) s h = places-granted t reason r s h
  places-resume no_session (some (r, reason)) s h = places-refused reason reason r s h
  places-resume (failed e) (some (r, reason)) s h = places-refused e reason r s h

  on_refreshed-places :
      (result : Refreshed) (s : State) → places k (on_refreshed b result s) ≡ places k s
  unfolding on_refreshed
  on_refreshed-places result s = places-resume result s.refreshing s refl

-- Every step keeps the queue empty while no refresh is under way.
on_error-IsSettled : (b : Bool) (f : Failure) (s : State) → IsSettled s → IsSettled (on_error b f s)
unfolding on_error on_unauthorized on_other expire_session
on_error-IsSettled b f s v = ground arith

resume-IsSettled :
    (b : Bool) (result : Refreshed) (o : Option (Request × String)) (s : State)
    → s.refreshing ≡ o
    → IsSettled s
    → IsSettled (resume b result o s)
unfolding resume give_up process_queue expire_session
resume-IsSettled b result o s h v = ground arith

step-IsSettled : (e : Event) (s : State) → IsSettled s → IsSettled (step e s)
unfolding step on_auth_state on_refreshed
step-IsSettled (failure b f) s v = on_error-IsSettled b f s v
step-IsSettled (refreshed b result) s v = resume-IsSettled b result s.refreshing s refl v
step-IsSettled (auth_state t) s v = v

run-IsSettled : (es : List Event) (s : State) → IsSettled s → IsSettled (run es s)
unfolding run
run-IsSettled [] s v = v
run-IsSettled (e ∷ es) s v = run-IsSettled es (step e s) (step-IsSettled e s v)

run-places :
    (k : ℕ) (es : List Event) (s : State)
    → IsSettled s
    → places k (run es s) ≡ failures k es + places k s
unfolding run step on_auth_state
run-places k [] s v = omega arith
run-places k (failure b f ∷ es) s v = omega (
  arith,
  run-places k es (on_error b f s) (on_error-IsSettled b f s v),
  on_error-places k b f s v,
)
run-places k (refreshed b r ∷ es) s v = omega (
  arith,
  run-places k es (on_refreshed b r s) (step-IsSettled (refreshed b r) s v),
  on_refreshed-places k b r s,
)
run-places k (auth_state t ∷ es) s v = run-places k es (on_auth_state t s) v

idle_places :
    (k : ℕ) (o : Option (Request × String)) (b : Bool) (q : List Request)
    → Waits o b q
    → b ≡ false
    → queued k q + refresher k o ≡ 0
idle_places k none b q w h = ground arith
idle_places k (some p) b q w h = cc

-- From the start of the module, after any failures, refresh answers and session changes that leave
-- no refresh under way, each request was answered (sent again or rejected) exactly as often as it
-- failed: none is lost in the queue, and none is answered twice.
pub run-answers :
    (k : ℕ) (es : List Event)
    → (run es init).is_refreshing ≡ false
    → answers k (run es init).effects ≡ failures k es
run-answers k es idle = omega (
  arith,
  run-places k es init (refl, refl),
  idle_places k (run es init).refreshing (run es init).is_refreshing (run es init).failed_queue
      (run-IsSettled es init (refl, refl)) idle,
)
