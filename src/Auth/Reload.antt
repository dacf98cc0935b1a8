-- ===== src/Auth/Reload.antt =====
-- Whom the store of frontend/src/stores/authStore.ts shows after a check and after a reload.
use nestlio.Prelude.{
  ℕ, ◌+◌, Bool, true, false, ◌&&◌, ◌≡◌, ap, refl, ◌⊎◌, inl, inr, Option, none, some, if◌then◌else◌,
  String, str_eq_iff, arith, ltb, and_split,
}
use nestlio.Auth.{
  AuthMeCache, Stored, absent, unreadable, entry, AuthState, World, User, auth_me_ttl, is_fresh,
  is_expired, is_users, get_optimistic_auth_state, load, set_logged_in, set_logged_out, remember,
  enter, login, logout, fetch_me, check_cached, check_auth, fallback,
}

-- The name in the store is the server's, or that of a fresh entry of the same user.
abbrev pub IsOwnName : User → Option String → ℕ → Stored → Option String → Type 0
IsOwnName user me now stored name =
    (name ≡ me)
    ⊎ ((c : AuthMeCache) × (stored ≡ entry c)
        × (c.user_id ≡ some user.id)
        × (is_fresh now c ≡ true)
        × (name ≡ c.display_name))

-- What a check may leave in the store for the session's user.
abbrev Shows : User → Option String → ℕ → Stored → AuthState → Type 0
Shows user me now stored s =
    (s.user_id ≡ some user.id)
    × (s.email ≡ user.email)
    × IsOwnName user me now stored s.display_name

own-eq : (u : User) (id : Option String) → is_users id u ≡ true → id ≡ some u.id
own-eq u none h = ground arith
own-eq u (some id) h = ap some ((str_eq_iff id u.id).0 h)

fetch_me-Shows :
    (u : User) (me : Option String) (now : ℕ) (stored : Stored) (w : World)
    → (fetch_me u me now w).store.is_authenticated ≡ true
    → Shows u me now stored (fetch_me u me now w).store
unfolding fetch_me enter remember set_logged_in set_logged_out
fetch_me-Shows u none now stored w h = ground arith
fetch_me-Shows u (some name) now stored w h = (refl, refl, inl refl)

check_cached-Shows :
    (u : User) (me : Option String) (now : ℕ) (stored : Stored) (w : World)
    → (check_cached u me now stored w).store.is_authenticated ≡ true
    → Shows u me now stored (check_cached u me now stored w).store
unfolding check_cached
check_cached-Shows u me now absent w h = fetch_me-Shows u me now absent w h
check_cached-Shows u me now unreadable w h = fetch_me-Shows u me now unreadable w h
check_cached-Shows u me now (entry c) w h = by_test (is_users c.user_id u && is_fresh now c) refl h
  where
    by_test :
        (b : Bool)
        → (is_users c.user_id u && is_fresh now c) ≡ b
        → (if b
            then set_logged_in u.id u.email c.display_name w
            else fetch_me u me now w).store.is_authenticated
          ≡ true
        → Shows u me now
            (entry c)
            (if b then set_logged_in u.id u.email c.display_name w else fetch_me u me now w).store
    by_test true e k =
        let (same, fresh) = and_split (is_users c.user_id u) (is_fresh now c) e in
        unfold set_logged_in in (refl, refl, inr (c, refl, own-eq u c.user_id same, fresh, refl))
    by_test false e k = fetch_me-Shows u me now (entry c) w k

-- If somebody is logged in after a check of the session, it is the session's user with that
-- user's email, and the name is the server's answer or stands in an entry of localStorage that is
-- this user's and younger than half an hour: no other user's name is shown.
pub check_auth-IsOwnName :
    (user : User) (me : Option String) (now : ℕ) (w : World)
    → (check_auth (some user) me now w).store.is_authenticated ≡ true
    → ((check_auth (some user) me now w).store.user_id ≡ some user.id)
      × ((check_auth (some user) me now w).store.email ≡ user.email)
      × IsOwnName user me now w.stored (check_auth (some user) me now w).store.display_name
unfolding check_auth
check_auth-IsOwnName user me now w h = check_cached-Shows user me now w.stored w h

-- A page that is loaded within half an hour after a login, with the Supabase session still in
-- localStorage, shows that user at once, without a check; after a logout no reload does, whatever
-- the time and the session.
pub load-login :
    (user : User) (name : String) (now later : ℕ) (has_sb_session : Bool) (w : World)
    → ltb later (now + auth_me_ttl) ≡ true
    → ((load later true (login (some user) (some name) now w)).store ≡ record {
      is_authenticated = true;
      is_auth_checking = false;
      user_id = some user.id;
      email = none;
      display_name = some name;
    })
      × ((load later has_sb_session (logout (login (some user) (some name) now w))).store
          ≡ fallback)
unfolding load login enter remember logout get_optimistic_auth_state is_expired
load-login user name now later b w h = (rw h refl, refl)
