-- ===== src/Tests/Outcomes.antt =====
-- What the user is told of a request's outcome (frontend/src/utils/error.ts,
-- frontend/src/components/Toaster.tsx, frontend/src/hooks/useAssetSection.ts).
use nestlio.Prelude.{◌≡◌, refl, true, none, some, [], ◌∷◌, codes}
use nestlio.Prelude.{ℕ, ◌≤◌, List, length, Text}
use nestlio.Toasts
use nestlio.Toasts.{ToastType, empty_screen, max_toasts, wait}
use nestlio.Toasts.Expiry.{growing, run-gone}
use nestlio.Mutations.{Outcome, update_fn, update_settled, on_error, show, invalidate}
use nestlio.Mutations.Assets
use nestlio.Mutations.Assets.{
  FormTarget, SectionMessages, submit_form, mutate, request_settled, mounted,
}
use nestlio.Errors.{FastApiDetail, DetailEntry, ErrorObject, Thrown, parse_detail, join_texts}

abbrev timeout : ErrorObject
timeout = record {
  response = none;
  is_axios_error = true;
  code = some "ECONNABORTED";
  message = some (codes "timeout of 15000ms exceeded");
}

parsed :
    parse_detail
      (FastApiDetail.list (DetailEntry.msg (codes "a") ∷ (DetailEntry.text (codes "b") ∷ [])))
    ≡ codes "a, b"
unfolding parse_detail join_texts
parsed = refl

abbrev shown : List Toasts.Event
shown =
    Toasts.Event.show (codes "saved") ToastType.success none
    ∷ (Toasts.Event.pass 3000
        ∷ (Toasts.Event.show (codes "removed") ToastType.info
              (some (record { label = codes "undo"; on_click = 1 }))
            ∷ []))

run-gone_example :
    (length (Toasts.run shown empty_screen).toasts ≤ max_toasts)
    × (growing (Toasts.run shown empty_screen).seq (Toasts.run shown empty_screen).toasts ≡ true)
    × ((wait 6000 (Toasts.run shown empty_screen)).toasts ≡ [])
run-gone_example = run-gone shown

abbrev wording : SectionMessages
wording = record { create = codes "added"; deactivate = none; sync = codes "synced" }

abbrev calls : List (Assets.Event ℕ Text Text)
calls =
    Assets.Event.open_edit 4
    ∷ (Assets.Event.submit (codes "a") (codes "b")
        ∷ (Assets.Event.settles 0 (Outcome.rejected (Thrown.object timeout))
            ∷ (Assets.Event.submit (codes "a") (codes "c")
                ∷ (Assets.Event.settles 0 (Outcome.resolved true) ∷ []))))

form_after : (Assets.run (λ n. n) wording calls mounted).state.form_target ≡ FormTarget.closed
unfolding Assets.run Assets.step submit_form mutate update_fn request_settled update_settled
    on_error show invalidate
form_after = refl
