-- ===== src/Tests/Requests.antt =====
-- A burst of expired requests at the client of frontend/src/api/client.ts.
use nestlio.Prelude.{
  ◌≡◌, refl, ◌+◌, true, false, ◌&&◌, not, if◌then◌else◌, none, some, List, [], ◌∷◌,
}
use nestlio.ApiClient.{
  Request, Failure, State, init, Event, failure, refreshed, token, no_session, run, step, on_error,
  on_unauthorized, on_other, on_refreshed, resume, process_queue, has_status,
}
use nestlio.ApiClient.Conservation.{answers, failures, run-answers}
use nestlio.ApiClient.Session.{expiries, is_refused, is_waiting, on_refreshed-expiries}

abbrev first : Request
first = record { id = 1; retry = false; authorization = some "old" }

abbrev second : Request
second = record { id = 2; retry = false; authorization = some "old" }

abbrev expired : Request → Failure
expired r = record {
  request = r;
  has_config = true;
  status = some 401;
  detail = none;
  reason = "401";
}

-- Two requests meet the expired session, the refresh brings a token, and a third fails for good.
abbrev burst : List Event
burst =
    failure false (expired first)
    ∷ failure false (expired second)
    ∷ refreshed false (token "new")
    ∷ failure false record {
      request = first;
      has_config = true;
      status = some 500;
      detail = none;
      reason = "500";
    }
    ∷ []

burst_idle : (run burst init).is_refreshing ≡ false
unfolding run step on_error on_unauthorized on_other on_refreshed resume process_queue has_status
burst_idle = refl

run-answers_example : answers 1 (run burst init).effects ≡ failures 1 burst
run-answers_example = run-answers 1 burst burst_idle

-- The state in which the second request waits for the refresh of the first.
abbrev waiting : State
waiting = record init {
  is_refreshing = true;
  failed_queue = second ∷ [];
  refreshing = some (record first { retry = true }, "401");
}

on_refreshed-expiries_example :
    expiries (on_refreshed false no_session waiting).effects
    ≡ expiries waiting.effects
      + (if not false && is_refused no_session && is_waiting waiting.refreshing then 1 else 0)
on_refreshed-expiries_example = on_refreshed-expiries false no_session waiting
