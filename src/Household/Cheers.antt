-- ===== src/Household/Cheers.antt =====
-- The latest cheer (latestPartnerCheer of frontend/src/utils/cheers.ts).
use nestlio.Prelude.{
  ◌++◌, ◌&&◌, ◌||◌, any, ◌≡◌, refl, Bool, true, false, not, Option, none, some, List, [], ◌∷◌, All,
  if◌then◌else◌, filter, String, str_eq, text_eq_refl, arith, Bool-cases, inl, inr,
}
use mathlib.Core.Path.{subst}
use nestlio.Prelude.Sort.{sort_by, insert_by, IsSortedBy, sort_by-IsSortedBy}
use nestlio.Types.Notifications.{NotificationReactionOut, NotificationOut, NotificationListOut}
use nestlio.Ledger.TextOrder.{
  before-not_after, text_trichotomy, text_before_trans, text_eq-before, before-text_eq,
  text_eq_trans, text_eq_symm,
}
use nestlio.Ledger.{text_before}
use nestlio.Household.{
  latest_first, partner_cheers, first_of, latest_partner_cheer, reactions_of, is_cheer_type,
}

module _ {A : Type 0} (le : A → A → Bool) (P : A → Type 0) where
  from_inserted : (x : A) (ys : List A) → All P (insert_by le x ys) → P x × All P ys
  unfolding insert_by
  from_inserted x [] a = a
  from_inserted x (y ∷ ys) a = from (le x y) (from_inserted x ys) a
    where
      from :
          (b : Bool)
          → (All P (insert_by le x ys) → P x × All P ys)
          → All P (if b then x ∷ y ∷ ys else y ∷ insert_by le x ys)
          → P x × All P (y ∷ ys)
      from true later h = h
      from false later h = let (p, q) = later h.1 in (p, (h.0, q))

  to_inserted : (x : A) (ys : List A) → P x → All P ys → All P (insert_by le x ys)
  unfolding insert_by
  to_inserted x [] p a = (p, tt)
  to_inserted x (y ∷ ys) p a = elim (Bool-cases (le x y)) [
    | inl e ↦ rw e (p, a)
    | inr e ↦ rw e (a.0, to_inserted x ys p a.1)
  ]

  from_sorted : (xs : List A) → All P (sort_by le xs) → All P xs
  unfolding sort_by
  from_sorted [] a = tt
  from_sorted (x ∷ xs) a = let (p, q) = from_inserted x (sort_by le xs) a in (p, from_sorted xs q)

  to_sorted : (xs : List A) → All P xs → All P (sort_by le xs)
  unfolding sort_by
  to_sorted [] a = tt
  to_sorted (x ∷ xs) a = to_inserted x (sort_by le xs) a.0 (to_sorted xs a.1)

latest_first-total :
    (a b : NotificationReactionOut) → latest_first a b ≡ false → latest_first b a ≡ true
unfolding latest_first
latest_first-total a b h =
    ground
      (arith, text_trichotomy a.created_at b.created_at, text_eq_symm a.created_at b.created_at)

latest_first_trans :
    (a b c : NotificationReactionOut)
    → latest_first a b ≡ true
    → latest_first b c ≡ true
    → latest_first a c ≡ true
unfolding latest_first
latest_first_trans a b c h k = ground (
  arith,
  text_before_trans c.created_at b.created_at a.created_at,
  text_eq-before c.created_at b.created_at a.created_at,
  before-text_eq b.created_at a.created_at c.created_at,
  text_eq_trans c.created_at b.created_at a.created_at,
)

abbrev IsPartners : String → NotificationReactionOut → Type 0
IsPartners my_id r = str_eq r.user_id my_id ≡ false

kept-IsPartners :
    (my_id : String) (rs : List NotificationReactionOut)
    → All (IsPartners my_id) (filter (λ r. not (str_eq r.user_id my_id)) rs)
kept-IsPartners my_id [] = tt
kept-IsPartners my_id (r ∷ rs) = elim (Bool-cases (str_eq r.user_id my_id)) [
  | inl e ↦ rw e (kept-IsPartners my_id rs)
  | inr e ↦ rw e (e, kept-IsPartners my_id rs)
]

module _ (P : NotificationReactionOut → Type 0) where
  abbrev Holds : Option NotificationReactionOut → Type 0
  Holds none = Unit
  Holds (some r) = P r

-- No later than r.
abbrev IsNoLater : NotificationReactionOut → NotificationReactionOut → Type 0
IsNoLater r y = latest_first r y ≡ true

first-latest :
    (my_id : String) (xs sorted : List NotificationReactionOut) (r : NotificationReactionOut)
    → (All (IsNoLater r) sorted → All (IsNoLater r) xs)
    → IsSortedBy latest_first sorted
    → All (IsPartners my_id) sorted
    → first_of sorted ≡ some r
    → IsPartners my_id r × All (IsNoLater r) xs
first-latest my_id xs [] r back s a e = ground arith
first-latest my_id xs (x ∷ rest) r back s a e =
    subst
      (Holds (λ z.
        (All (IsNoLater z) (x ∷ rest) → All (IsNoLater z) xs)
        → IsPartners my_id z × All (IsNoLater z) xs))
      e (λ k. (a.0, k (unfold latest_first in ground (arith, text_eq_refl x.created_at), s.0))) back

-- Whether a notification of a cheer holds one of the partner that is later than r.
abbrev pub overtakes : String → NotificationReactionOut → NotificationOut → Bool
overtakes my_id r n =
    is_cheer_type n.notif_type
    && any (λ y. not (str_eq y.user_id my_id) && text_before r.created_at y.created_at) n.reactions

module _ (my_id : String) (r : NotificationReactionOut) where
  none_later :
      (xs rest : List NotificationReactionOut)
      → All (IsNoLater r) (filter (λ y. not (str_eq y.user_id my_id)) (xs ++ rest))
      → (any (λ y. not (str_eq y.user_id my_id) && text_before r.created_at y.created_at) xs
          ≡ false)
        × All (IsNoLater r) (filter (λ y. not (str_eq y.user_id my_id)) rest)
  none_later [] rest a = (refl, a)
  none_later (x ∷ xs) rest a = by_user (not (str_eq x.user_id my_id)) (none_later xs rest) a
    where
      others : List NotificationReactionOut
      others = filter (λ y. not (str_eq y.user_id my_id)) (xs ++ rest)

      by_user :
          (b : Bool)
          → (All (IsNoLater r) others
              → (any (λ y. not (str_eq y.user_id my_id) && text_before r.created_at y.created_at) xs
                  ≡ false)
                × All (IsNoLater r) (filter (λ y. not (str_eq y.user_id my_id)) rest))
          → All (IsNoLater r) (if b then x ∷ others else others)
          → ((b && text_before r.created_at x.created_at)
                || any
                    (λ y. not (str_eq y.user_id my_id) && text_before r.created_at y.created_at)
                    xs)
              ≡ false
            × All (IsNoLater r) (filter (λ y. not (str_eq y.user_id my_id)) rest)
      by_user true kept_of h =
          let (later, kept) = kept_of h.1 in
          let first : text_before r.created_at x.created_at ≡ false =
            unfold latest_first in before-not_after x.created_at r.created_at h.0 in
          (rw (first, later) refl, kept)
      by_user false kept_of h = kept_of h

  none-overtakes :
      (items : List NotificationOut)
      → All (IsNoLater r) (partner_cheers items my_id)
      → any (overtakes my_id r) items ≡ false
  unfolding partner_cheers
  none-overtakes [] a = refl
  none-overtakes (n ∷ items) a = by_type (is_cheer_type n.notif_type) (none-overtakes items) a
    where
      cheers : List NotificationOut
      cheers = filter (λ m. is_cheer_type m.notif_type) items

      by_type :
          (b : Bool)
          → (All (IsNoLater r) (filter (λ y. not (str_eq y.user_id my_id)) (reactions_of cheers))
              → any (overtakes my_id r) items ≡ false)
          → All (IsNoLater r) (
              filter
                (λ y. not (str_eq y.user_id my_id))
                (reactions_of (if b then n ∷ cheers else cheers)))
          → ((b
                && any
                    (λ y. not (str_eq y.user_id my_id) && text_before r.created_at y.created_at)
                    n.reactions)
              || any (overtakes my_id r) items)
            ≡ false
      by_type true rest_of h =
          let (later, kept) = none_later n.reactions (reactions_of cheers) h in
          rw (later, rest_of kept) refl
      by_type false rest_of h = rest_of h

-- The cheer that the home page shows is the partner's, never the user's own, and no notification of
-- a cheer holds a later one of the partner.
pub latest_partner_cheer-latest :
    (notifications : NotificationListOut) (my_id : String) (r : NotificationReactionOut)
    → latest_partner_cheer (some notifications) (some my_id) ≡ some r
    → (str_eq r.user_id my_id ≡ false) × (any (overtakes my_id r) notifications.items ≡ false)
unfolding latest_partner_cheer
latest_partner_cheer-latest notifications my_id r h =
    let (partners, latest) =
      first-latest my_id cheers (sort_by latest_first cheers) r
        (from_sorted latest_first (IsNoLater r) cheers)
        (sort_by-IsSortedBy latest_first latest_first-total latest_first_trans cheers)
        (to_sorted latest_first (IsPartners my_id) cheers (
          unfold partner_cheers in
          kept-IsPartners my_id
            (reactions_of (filter (λ n. is_cheer_type n.notif_type) notifications.items))))
        (shown (str_eq my_id "") (first_of (sort_by latest_first cheers)) h) in
    (partners, none-overtakes my_id r notifications.items latest)
  where
    cheers : List NotificationReactionOut
    cheers = partner_cheers notifications.items my_id

    shown :
        (b : Bool) (o : Option NotificationReactionOut)
        → (if b then none else o) ≡ some r
        → o ≡ some r
    shown true o e = ground arith
    shown false o e = e
