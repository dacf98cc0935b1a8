-- ===== src/Auth.antt =====
-- Who is logged in (frontend/src/stores/authStore.ts): the store's fields, the cache entry that it
-- keeps in localStorage, and its actions. Supabase and the server answer in events; the
-- clock's value and whether localStorage holds a Supabase session come in as arguments. An entry
-- that JSON.parse refuses, or that it reads as null, is `unreadable`. What it reads otherwise may
-- lack any of the three fields: that field is none, and a time that is none counts as NaN.
pub mod Consistency
pub mod Reload
use nestlio.Prelude.{
  ℕ, ◌+◌, ◌*◌, Bool, true, false, ◌&&◌, not, Option, none, some, List, [], ◌∷◌, ltb, if◌then◌else◌,
  String, str_eq,
}

pub record AuthMeCache : Type 0 where
  pub user_id : Option String
  pub display_name : Option String
  pub cached_at : Option ℕ

-- What localStorage holds under AUTH_ME_CACHE_KEY.
pub data Stored : Type 0 where
  absent unreadable : Stored
  entry : AuthMeCache → Stored

pub record AuthState : Type 0 where
  pub is_authenticated : Bool
  pub is_auth_checking : Bool
  pub user_id : Option String
  pub email : Option String
  pub display_name : Option String

-- The store and the cache entry beside it.
pub record World : Type 0 where
  pub store : AuthState
  pub stored : Stored

-- A user as Supabase knows it.
pub record User : Type 0 where
  pub id : String
  pub email : Option String

abbrev pub auth_me_ttl : ℕ
auth_me_ttl = 30 * 60 * 1000

-- Date.now() - cachedAt < AUTH_ME_TTL, also for an entry of the future; not of NaN.
abbrev pub is_within : ℕ → Option ℕ → Bool
is_within now none = false
is_within now (some t) = ltb now (t + auth_me_ttl)

unfoldable pub is_fresh : ℕ → AuthMeCache → Bool
is_fresh now cached = is_within now cached.cached_at

-- Date.now() - cachedAt >= AUTH_ME_TTL; not of NaN either.
abbrev pub is_beyond : ℕ → Option ℕ → Bool
is_beyond now none = false
is_beyond now (some t) = not (ltb now (t + auth_me_ttl))

unfoldable pub is_expired : ℕ → AuthMeCache → Bool
is_expired now cached = is_beyond now cached.cached_at

abbrev pub fallback : AuthState
fallback = record {
  is_authenticated = false;
  is_auth_checking = true;
  user_id = none;
  email = none;
  display_name = none;
}

-- getOptimisticAuthState, with the email that the store starts with.
unfoldable pub get_optimistic_auth_state : ℕ → Bool → Stored → AuthState
get_optimistic_auth_state now has_sb_session absent = fallback
get_optimistic_auth_state now has_sb_session unreadable = fallback
get_optimistic_auth_state now has_sb_session (entry cached) =
    if not (is_expired now cached) && has_sb_session
    then record {
      is_authenticated = true;
      is_auth_checking = false;
      user_id = cached.user_id;
      email = none;
      display_name = cached.display_name;
    }
    else fallback

-- The page loads: the store is made anew, localStorage stays.
unfoldable pub load : ℕ → Bool → World → World
load now has_sb_session w = record w {
  store = get_optimistic_auth_state now has_sb_session w.stored;
}

unfoldable pub set_logged_in : String → Option String → Option String → World → World
set_logged_in user_id email display_name w = record w {
  store = record {
    is_authenticated = true;
    is_auth_checking = false;
    user_id = some user_id;
    email = email;
    display_name = display_name;
  };
}

unfoldable pub set_logged_out : World → World
set_logged_out w = record w {
  store = record {
    is_authenticated = false;
    is_auth_checking = false;
    user_id = none;
    email = none;
    display_name = none;
  };
}

-- localStorage.setItem(AUTH_ME_CACHE_KEY, ...).
unfoldable pub remember : String → String → ℕ → World → World
remember user_id display_name now w = record w {
  stored =
      entry
        record { user_id = some user_id; display_name = some display_name; cached_at = some now };
}

-- setLoggedIn and the cache entry behind it.
unfoldable pub enter : User → String → ℕ → World → World
enter user display_name now w =
    remember user.id display_name now (set_logged_in user.id user.email (some display_name) w)

-- The answer of signInWithPassword, with that of fetchMe; a refusal is the message that the caller
-- sees and changes nothing.
unfoldable pub login : Option User → Option String → ℕ → World → World
login none me now w = w
login (some user) none now w = w
login (some user) (some display_name) now w = enter user display_name now w

unfoldable pub logout : World → World
logout w = record (set_logged_out w) { stored = absent }

-- fetchMe inside checkAuth.
unfoldable pub fetch_me : User → Option String → ℕ → World → World
fetch_me user none now w = set_logged_out w
fetch_me user (some display_name) now w = enter user display_name now w

-- cached.userId === session.user.id.
abbrev pub is_users : Option String → User → Bool
is_users none user = false
is_users (some id) user = str_eq id user.id

unfoldable pub check_cached : User → Option String → ℕ → Stored → World → World
check_cached user me now absent w = fetch_me user me now w
check_cached user me now unreadable w = fetch_me user me now w
check_cached user me now (entry cached) w =
    if is_users cached.user_id user && is_fresh now cached
    then set_logged_in user.id user.email cached.display_name w
    else fetch_me user me now w

-- checkAuth: the session's user, none where getSession fails or has no user, and what fetchMe
-- would answer.
unfoldable pub check_auth : Option User → Option String → ℕ → World → World
check_auth none me now w = set_logged_out w
check_auth (some user) me now w = check_cached user me now w.stored w

pub data Action : Type 0 where
  loads : ℕ → Bool → Action
  logs_in : Option User → Option String → ℕ → Action
  logs_out : Action
  checks : Option User → Option String → ℕ → Action

unfoldable pub perform : Action → World → World
perform (loads now has_sb_session) w = load now has_sb_session w
perform (logs_in user me now) w = login user me now w
perform logs_out w = logout w
perform (checks user me now) w = check_auth user me now w

unfoldable pub perform_all : List Action → World → World
perform_all [] w = w
perform_all (a ∷ actions) w = perform_all actions (perform a w)
