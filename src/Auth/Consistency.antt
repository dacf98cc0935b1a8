-- ===== src/Auth/Consistency.antt =====
-- What the store of frontend/src/stores/authStore.ts says at one time fits together.
use nestlio.Prelude.{
  ℕ, Bool, true, false, not, ◌&&◌, ◌≡◌, refl, Option, none, some, List, [], ◌∷◌, String, Bool-cases,
  inl, inr,
}
use nestlio.Auth.{
  Stored, absent, unreadable, entry, AuthState, World, User, is_fresh, is_expired, is_users,
  get_optimistic_auth_state, load, set_logged_in, set_logged_out, remember, enter, login, logout,
  fetch_me, check_cached, check_auth, Action, loads, logs_in, logs_out, checks, perform,
  perform_all,
}

abbrev pub is_some {ℓ} : {A : Type ℓ} → Option A → Bool
is_some none = false
is_some (some a) = true

-- A user and a name are there exactly when somebody is logged in, an email only then, and nobody
-- is logged in while the store still checks.
abbrev pub IsConsistent : AuthState → Type 0
IsConsistent s =
    (is_some s.user_id ≡ s.is_authenticated)
    × (is_some s.display_name ≡ s.is_authenticated)
    × ((is_some s.email && s.is_authenticated) ≡ is_some s.email)
    × ((s.is_authenticated && s.is_auth_checking) ≡ false)

-- The cache entry, if there is one, has a user id and a name.
abbrev pub IsComplete : Stored → Type 0
IsComplete absent = Unit
IsComplete unreadable = Unit
IsComplete (entry c) = (is_some c.user_id ≡ true) × (is_some c.display_name ≡ true)

abbrev IsSound : World → Type 0
IsSound w = IsConsistent w.store × IsComplete w.stored

optimistic-IsConsistent :
    (now : ℕ) (b : Bool) (stored : Stored)
    → IsComplete stored
    → IsConsistent (get_optimistic_auth_state now b stored)
unfolding get_optimistic_auth_state
optimistic-IsConsistent now b absent c = (refl, refl, refl, refl)
optimistic-IsConsistent now b unreadable c = (refl, refl, refl, refl)
optimistic-IsConsistent now b (entry cached) h =
    elim (Bool-cases (not (is_expired now cached) && b)) [
      | inl e ↦ rw e (h.0, h.1, refl, refl)
      | inr e ↦ rw e (refl, refl, refl, refl)
    ]

logged_in-IsConsistent :
    (id name : String) (email : Option String) (w : World)
    → IsConsistent (set_logged_in id email (some name) w).store
unfolding set_logged_in
logged_in-IsConsistent id name none w = (refl, refl, refl, refl)
logged_in-IsConsistent id name (some e) w = (refl, refl, refl, refl)

enter-IsSound : (u : User) (name : String) (now : ℕ) (w : World) → IsSound (enter u name now w)
unfolding enter remember
enter-IsSound u name now w = (logged_in-IsConsistent u.id name u.email w, (refl, refl))

fetch_me-IsSound :
    (u : User) (me : Option String) (now : ℕ) (w : World)
    → IsComplete w.stored
    → IsSound (fetch_me u me now w)
unfolding fetch_me set_logged_out
fetch_me-IsSound u none now w c = ((refl, refl, refl, refl), c)
fetch_me-IsSound u (some name) now w c = enter-IsSound u name now w

-- A session whose user is the one of a complete entry.
taken-IsSound :
    (id : String) (email name : Option String) (w : World)
    → is_some name ≡ true
    → IsComplete w.stored
    → IsSound (set_logged_in id email name w)
unfolding set_logged_in
taken-IsSound id none name w h c = ((refl, h, refl, refl), c)
taken-IsSound id (some e) name w h c = ((refl, h, refl, refl), c)

check_cached-IsSound :
    (u : User) (me : Option String) (now : ℕ) (stored : Stored) (w : World)
    → IsComplete stored
    → IsComplete w.stored
    → IsSound (check_cached u me now stored w)
unfolding check_cached
check_cached-IsSound u me now absent w s c = fetch_me-IsSound u me now w c
check_cached-IsSound u me now unreadable w s c = fetch_me-IsSound u me now w c
check_cached-IsSound u me now (entry d) w s c =
    elim (Bool-cases (is_users d.user_id u && is_fresh now d)) [
      | inl e ↦ rw e (taken-IsSound u.id u.email d.display_name w s.1 c)
      | inr e ↦ rw e (fetch_me-IsSound u me now w c)
    ]

perform-IsSound : (a : Action) (w : World) → IsSound w → IsSound (perform a w)
unfolding perform load login logout check_auth set_logged_out
perform-IsSound (loads now b) w h = (optimistic-IsConsistent now b w.stored h.1, h.1)
perform-IsSound (logs_in none me now) w h = h
perform-IsSound (logs_in (some u) none now) w h = h
perform-IsSound (logs_in (some u) (some name) now) w h = enter-IsSound u name now w
perform-IsSound logs_out w h = ((refl, refl, refl, refl), tt)
perform-IsSound (checks none me now) w h = ((refl, refl, refl, refl), h.1)
perform-IsSound (checks (some u) me now) w h = check_cached-IsSound u me now w.stored w h.1 h.1

kept : (actions : List Action) (w : World) → IsSound w → IsSound (perform_all actions w)
unfolding perform_all
kept [] w h = h
kept (a ∷ actions) w h = kept actions (perform a w) (perform-IsSound a w h)

-- Where the cache entry of localStorage, if there is one, has a user id and a name, the store is
-- consistent after a load of the page and any actions behind it, further loads included: a user id
-- and a display name are there exactly when somebody is logged in, an email only then, and nobody
-- is logged in while the store still checks. The entry is then complete again.
pub perform_all-IsConsistent :
    (now : ℕ) (has_sb_session : Bool) (w : World) (actions : List Action)
    → IsComplete w.stored
    → IsConsistent (perform_all actions (load now has_sb_session w)).store
      × IsComplete (perform_all actions (load now has_sb_session w)).stored
unfolding load
perform_all-IsConsistent now b w actions c =
    kept actions (record w { store = get_optimistic_auth_state now b w.stored })
      (optimistic-IsConsistent now b w.stored c, c)
