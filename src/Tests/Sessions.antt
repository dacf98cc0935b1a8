-- ===== src/Tests/Sessions.antt =====
-- A login, a cache and open modals (frontend/src/stores/authStore.ts,
-- frontend/src/constants/queryKeys.ts, frontend/src/hooks/useModalBehavior.ts).
use nestlio.Prelude.{
  ℕ, ◌≡◌, refl, Bool, true, false, none, some, List, [], ◌∷◌, if◌then◌else◌, length,
}
use nestlio.Prelude.Int.{pos}
use nestlio.Auth.{
  entry, World, User, load, login, logout, check_auth, check_cached, set_logged_in, is_fresh,
  fallback, Action, logs_in, checks, perform_all,
}
use nestlio.Auth.Consistency.{IsConsistent, IsComplete, perform_all-IsConsistent}
use nestlio.Auth.Reload.{IsOwnName, check_auth-IsOwnName, load-login}
use nestlio.Modals.{
  StackEntry, no_modals, Reaction, Key, is_topmost, topmost_from, handle_key_down, on_key,
  handle_touch_start, handle_touch_end, open_modal, lock_body,
}
use nestlio.Modals.{close_modal, unlock_body, remove_entry}
use nestlio.Modals.Lock.{Event, opens, closes, Fits, none_open, perform_all-IsLocked}
use nestlio.Modals.Lock as Lock
use nestlio.Modals.Topmost.{handle_key_down-one}
use nestlio.Swipes.{TouchState}
use nestlio.Swipes as Swipes
use nestlio.Swipes.Guards.{opposite, handle_touch_end-back, handle_touch_end-modals}

abbrev user : User
user = record { id = "u1"; email = some "a@b.c" }

abbrev world : World
world = record {
  store = fallback;
  stored = entry record { user_id = some "u1"; display_name = some "A"; cached_at = some 1000 };
}

abbrev session : List Action
session = logs_in (some user) (some "A") 2000 ∷ checks (some user) none 3000 ∷ []

perform_all-IsConsistent_example :
    IsConsistent (perform_all session (load 1500 false world)).store
    × IsComplete (perform_all session (load 1500 false world)).stored
perform_all-IsConsistent_example = perform_all-IsConsistent 1500 false world session (refl, refl)

checked : (check_auth (some user) none 2000 world).store.is_authenticated ≡ true
unfolding check_auth check_cached set_logged_in is_fresh
checked = refl

check_auth-IsOwnName_example :
    ((check_auth (some user) none 2000 world).store.user_id ≡ some "u1")
    × ((check_auth (some user) none 2000 world).store.email ≡ some "a@b.c")
    × IsOwnName user none 2000 world.stored
        (check_auth (some user) none 2000 world).store.display_name
check_auth-IsOwnName_example = check_auth-IsOwnName user none 2000 world checked

load-login_example :
    ((load 2500 true (login (some user) (some "A") 2000 world)).store ≡ record {
      is_authenticated = true;
      is_auth_checking = false;
      user_id = some "u1";
      email = none;
      display_name = some "A";
    })
    × ((load 2500 true (logout (login (some user) (some "A") 2000 world))).store ≡ fallback)
load-login_example = load-login user "A" 2000 2500 true world refl

abbrev form : StackEntry
form = record { id = 1; dialog = some 10 }

abbrev confirm : StackEntry
confirm = record { id = 2; dialog = some 20 }

abbrev clicks : List Event
clicks = opens form ∷ opens confirm ∷ closes 1 ∷ []

clicks-Fits : Fits clicks (no_modals "auto")
unfolding open_modal lock_body
clicks-Fits = (tt, (tt, (refl, tt)))

perform_all-IsLocked_example :
    ((Lock.perform_all clicks (no_modals "auto")).body_lock_count
      ≡ length (Lock.perform_all clicks (no_modals "auto")).modal_stack)
    × ((Lock.perform_all clicks (no_modals "auto")).body_overflow ≡ (
        if none_open (Lock.perform_all clicks (no_modals "auto")).modal_stack
        then "auto"
        else "hidden"))
perform_all-IsLocked_example = perform_all-IsLocked "auto" clicks clicks-Fits

abbrev apart : ℕ → ℕ → Bool
apart a b = false

confirm_closes :
    handle_key_down apart confirm (form ∷ confirm ∷ []) Key.escape [] none ≡ some Reaction.close
unfolding handle_key_down is_topmost topmost_from on_key
confirm_closes = refl

handle_key_down-one_example : confirm.id ≡ confirm.id
handle_key_down-one_example =
    handle_key_down-one apart (form ∷ confirm ∷ []) confirm confirm 1 1 Key.escape [] [] none
      Reaction.close Reaction.close refl refl confirm_closes confirm_closes

handle_touch_end-back_example :
    ((Swipes.handle_touch_end "auto"
        (pos 0)
        (pos 0)
        100
        (Swipes.handle_touch_start (pos 90) (pos 5) 0)).1
      ≡ opposite
          (Swipes.handle_touch_end "auto"
            (pos 90)
            (pos 5)
            100
            (Swipes.handle_touch_start (pos 0) (pos 0) 0)).1)
    × (Swipes.handle_touch_end "auto"
          (pos 0)
          (pos 0)
          100
          (Swipes.handle_touch_end "auto"
            (pos 90)
            (pos 5)
            100
            (Swipes.handle_touch_start (pos 0) (pos 0) 0)).0
        ≡ (none, none))
handle_touch_end-back_example = handle_touch_end-back "auto" (pos 0) (pos 90) (pos 0) (pos 5) 0 100

still_open : none_open (Lock.perform_all clicks (no_modals "auto")).modal_stack ≡ false
unfolding open_modal close_modal lock_body unlock_body remove_entry
still_open = refl

handle_touch_end-modals_example :
    (Swipes.handle_touch_end
      (Lock.perform_all clicks (no_modals "auto")).body_overflow
      (pos 90)
      (pos 0)
      100
      (some record { start_x = pos 0; start_y = pos 0; start_time = 0 })).1
    ≡ none
handle_touch_end-modals_example =
    handle_touch_end-modals "auto" clicks (pos 90) (pos 0) 100
      (some record { start_x = pos 0; start_y = pos 0; start_time = 0 }) clicks-Fits still_open
