-- ===== src/ApiClient/Session.antt =====
-- How often the user is told that the session is over.
use nestlio.Prelude.{
  ℕ, suc, ◌+◌, ◌≡◌, refl, Bool, true, false, not, ◌&&◌, Option, none, some, List, [], ◌∷◌, ◌++◌,
  map, arith, if◌then◌else◌, String,
}
use nestlio.ApiClient.{
  Request, Effect, resend, reject, toast, session_expired, State, resolve_entry, reject_entry,
  authorize, process_queue, expire_session, expired_message, Refreshed, token, no_session, failed,
  give_up, resume, on_refreshed,
}

-- The session events among the effects.
abbrev pub expiries : List Effect → ℕ
expiries [] = 0
expiries (session_expired ∷ es) = suc (expiries es)
expiries (resend r ∷ es) = expiries es
expiries (reject i m ∷ es) = expiries es
expiries (toast m ∷ es) = expiries es

expiries-append : (xs ys : List Effect) → expiries (xs ++ ys) ≡ expiries xs + expiries ys
expiries-append [] ys = omega arith
expiries-append (session_expired ∷ es) ys = omega (arith, expiries-append es ys)
expiries-append (resend r ∷ es) ys = expiries-append es ys
expiries-append (reject i m ∷ es) ys = expiries-append es ys
expiries-append (toast m ∷ es) ys = expiries-append es ys

expiries-resolve : (t : String) (rs : List Request) → expiries (map (resolve_entry t) rs) ≡ 0
expiries-resolve t [] = refl
expiries-resolve t (r ∷ rs) = expiries-resolve t rs

expiries-reject : (e : String) (rs : List Request) → expiries (map (reject_entry e) rs) ≡ 0
expiries-reject e [] = refl
expiries-reject e (r ∷ rs) = expiries-reject e rs

-- Whether Supabase gave no session.
abbrev pub is_refused : Refreshed → Bool
is_refused (token t) = false
is_refused no_session = true
is_refused (failed e) = true

abbrev pub is_waiting : Option (Request × String) → Bool
is_waiting none = false
is_waiting (some p) = true

expiries-give_up :
    (b : Bool) (r : Request) (reason e : String) (s : State)
    → expiries (give_up b r reason e s).effects ≡ expiries s.effects + (if not b then 1 else 0)
unfolding give_up process_queue expire_session
expiries-give_up true r reason e s = omega (
  arith,
  expiries-append (s.effects ++ map (reject_entry e) s.failed_queue) (reject r.id reason ∷ []),
  expiries-append s.effects (map (reject_entry e) s.failed_queue),
  expiries-reject e s.failed_queue,
)
expiries-give_up false r reason e s =
    let told = s.effects ++ toast expired_message ∷ session_expired ∷ [] in
    omega (
      arith,
      expiries-append (told ++ map (reject_entry e) s.failed_queue) (reject r.id reason ∷ []),
      expiries-append told (map (reject_entry e) s.failed_queue),
      expiries-append s.effects (toast expired_message ∷ session_expired ∷ []),
      expiries-reject e s.failed_queue,
    )

expiries-resume :
    (b : Bool) (result : Refreshed) (o : Option (Request × String)) (s : State)
    → expiries (resume b result o s).effects
      ≡ expiries s.effects + (if not b && is_refused result && is_waiting o then 1 else 0)
unfolding resume
expiries-resume b result none s = ground arith
expiries-resume b (token t) (some (r, reason)) s =
    unfold process_queue in
    ground (
      arith,
      expiries-append (s.effects ++ resend (authorize t r) ∷ [])
          (map (resolve_entry t) s.failed_queue),
      expiries-append s.effects (resend (authorize t r) ∷ []),
      expiries-resolve t s.failed_queue,
    )
expiries-resume true no_session (some (r, reason)) s = expiries-give_up true r reason reason s
expiries-resume false no_session (some (r, reason)) s = expiries-give_up false r reason reason s
expiries-resume true (failed e) (some (r, reason)) s = expiries-give_up true r reason e s
expiries-resume false (failed e) (some (r, reason)) s = expiries-give_up false r reason e s

-- However many requests wait in the queue, the answer to a refresh raises the session event once
-- if it brings no session and the user is not on the login page, and never otherwise.
pub on_refreshed-expiries :
    (b : Bool) (result : Refreshed) (s : State)
    → expiries (on_refreshed b result s).effects
      ≡ expiries s.effects
        + (if not b && is_refused result && is_waiting s.refreshing then 1 else 0)
unfolding on_refreshed
on_refreshed-expiries b result s = expiries-resume b result s.refreshing s
