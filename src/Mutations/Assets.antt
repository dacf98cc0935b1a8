-- ===== src/Mutations/Assets.antt =====
-- The sections of accounts, savings and real estate (frontend/src/hooks/useAssetSection.ts): their
-- state, what the screens call, and the requests that are under way, the oldest first. A request
-- settles at any time after it was sent.
use nestlio.Prelude.{
  ℕ, zero, suc, Bool, true, false, Option, none, some, List, [], ◌∷◌, ◌++◌, or_else, Text, codes,
}
use nestlio.QueryKeys.{asset_related_keys}
use nestlio.Mutations.{
  World, Outcome, CrudOptions, create_fn, update_fn, remove_fn, create_settled, update_settled,
  remove_settled, sync_settled, on_error,
}

-- formTarget: null, "new" or the row.
pub data FormTarget (T : Type 0) : Type 0 where
  closed : FormTarget T
  new : FormTarget T
  editing : T → FormTarget T

-- What the functions of the api send.
pub data Request (C U : Type 0) : Type 0 where
  create : C → Request C U
  update : ℕ → U → Request C U
  deactivate : ℕ → Request C U
  sync : ℕ → Request C U

pub record Section (T C U : Type 0) : Type 0 where
  pub form_target : FormTarget T
  pub deactivate_target : Option ℕ
  pub import_open : Bool
  pub pending : List (Request C U)

pub record SectionMessages : Type 0 where
  pub create : Text
  pub deactivate : Option Text
  pub sync : Text

-- What the screens call, and the settling of the n-th request that is under way.
pub data Event (T C U : Type 0) : Type 0 where
  open_new : Event T C U
  open_edit : T → Event T C U
  close_form : Event T C U
  ask_deactivate : T → Event T C U
  confirm_deactivate : Event T C U
  cancel_deactivate : Event T C U
  open_import : Event T C U
  close_import : Event T C U
  submit : C → U → Event T C U
  synchronise : T → Event T C U
  settles : ℕ → Outcome Bool → Event T C U

-- The n-th element, and the list without it.
abbrev pub nth {ℓ} : {A : Type ℓ} → ℕ → List A → Option A
nth n [] = none
nth zero (x ∷ xs) = some x
nth (suc n) (x ∷ xs) = nth n xs

abbrev pub without_nth {ℓ} : {A : Type ℓ} → ℕ → List A → List A
without_nth n [] = []
without_nth zero (x ∷ xs) = xs
without_nth (suc n) (x ∷ xs) = x ∷ without_nth n xs

module _ {T C U : Type 0} (get_id : T → ℕ) (messages : SectionMessages) where
  -- The options that useAssetSection hands to useCrudMutations; the response is not read.
  abbrev pub options : CrudOptions C U Bool (Request C U) (Section T C U)
  options = record {
    keys = asset_related_keys;
    create = some (λ payload. Request.create payload);
    update = some (λ target. Request.update target.0 target.1);
    remove = some (λ id. Request.deactivate id);
    messages = record {
      create = some messages.create;
      update = some (codes "저장했습니다.");
      remove = some (or_else messages.deactivate (codes "비활성화했습니다."));
    };
    on_create_success = some (λ item s. record s { form_target = FormTarget.closed });
    on_update_success = some (λ item s. record s { form_target = FormTarget.closed });
    on_remove_success = some (λ s. record s { deactivate_target = none });
  }

  -- mutate: the request goes out, or what the function throws is shown.
  unfoldable pub mutate : Outcome (Request C U) → World (Section T C U) → World (Section T C U)
  mutate (Outcome.resolved r) w = record w {
    state = record w.state { pending = w.state.pending ++ (r ∷ []) };
  }
  mutate (Outcome.rejected error) w = on_error error w

  abbrev pub submit_to : FormTarget T → C → U → World (Section T C U) → World (Section T C U)
  submit_to FormTarget.closed create_payload update_payload w = w
  submit_to FormTarget.new create_payload update_payload w =
      mutate (create_fn options create_payload) w
  submit_to (FormTarget.editing item) create_payload update_payload w =
      mutate (update_fn options (get_id item, update_payload)) w

  unfoldable pub submit_form : C → U → World (Section T C U) → World (Section T C U)
  submit_form create_payload update_payload w =
      submit_to w.state.form_target create_payload update_payload w

  abbrev pub deactivate_of : Option ℕ → World (Section T C U) → World (Section T C U)
  deactivate_of none w = w
  deactivate_of (some id) w = mutate (remove_fn options id) w

  unfoldable pub confirm : World (Section T C U) → World (Section T C U)
  confirm w = deactivate_of w.state.deactivate_target w

  -- A request settles, by the mutation that sent it.
  unfoldable pub request_settled :
      Request C U → Outcome Bool → World (Section T C U) → World (Section T C U)
  request_settled (Request.create payload) outcome w = create_settled options outcome w
  request_settled (Request.update id payload) outcome w = update_settled options outcome w
  request_settled (Request.deactivate id) outcome w = remove_settled options outcome w
  request_settled (Request.sync id) outcome w = sync_settled messages.sync outcome w

  abbrev pub settle_nth :
      Option (Request C U) → ℕ → Outcome Bool → World (Section T C U) → World (Section T C U)
  settle_nth none n outcome w = w
  settle_nth (some r) n outcome w =
      request_settled r outcome
        (record w { state = record w.state { pending = without_nth n w.state.pending } })

  abbrev pub set_form : FormTarget T → World (Section T C U) → World (Section T C U)
  set_form target w = record w { state = record w.state { form_target = target } }

  unfoldable pub step : Event T C U → World (Section T C U) → World (Section T C U)
  step Event.open_new w = set_form FormTarget.new w
  step (Event.open_edit item) w = set_form (FormTarget.editing item) w
  step Event.close_form w = set_form FormTarget.closed w
  step (Event.ask_deactivate item) w = record w {
    state = record w.state { deactivate_target = some (get_id item) };
  }
  step Event.confirm_deactivate w = confirm w
  step Event.cancel_deactivate w = record w { state = record w.state { deactivate_target = none } }
  step Event.open_import w = record w { state = record w.state { import_open = true } }
  step Event.close_import w = record w { state = record w.state { import_open = false } }
  step (Event.submit create_payload update_payload) w = submit_form create_payload update_payload w
  step (Event.synchronise item) w = mutate (Outcome.resolved (Request.sync (get_id item))) w
  step (Event.settles n outcome) w = settle_nth (nth n w.state.pending) n outcome w

  unfoldable pub run : List (Event T C U) → World (Section T C U) → World (Section T C U)
  run [] w = w
  run (e ∷ es) w = run es (step e w)

-- The section as it mounts.
abbrev pub mounted : {T C U : Type 0} → World (Section T C U)
mounted = record {
  state = record {
    form_target = FormTarget.closed;
    deactivate_target = none;
    import_open = false;
    pending = [];
  };
  invalidated = [];
  toasts = [];
}
