-- ===== src/Ledger/TextOrder.antt =====
-- How `localeCompare` orders dates and times (frontend/src/hooks/useLedgerFilters.ts,
-- frontend/src/utils/cheers.ts), as ISO texts.
use nestlio.Prelude.{true, false, ◌||◌, [], ◌∷◌, Text, text_eq, ◌≡◌, refl, arith}
use nestlio.Ledger.{text_before}

-- The order of the dates is total and transitive.
pub text_trichotomy : (s t : Text) → (text_before s t || text_eq s t || text_before t s) ≡ true
text_trichotomy [] [] = refl
text_trichotomy [] (d ∷ t) = refl
text_trichotomy (c ∷ s) [] = refl
text_trichotomy (c ∷ s) (d ∷ t) = ground (arith, text_trichotomy s t)

pub text_before_trans :
    (s t u : Text) → text_before s t ≡ true → text_before t u ≡ true → text_before s u ≡ true
text_before_trans [] [] u h k = ground arith
text_before_trans s (d ∷ t) [] h k = ground arith
text_before_trans [] (d ∷ t) (e ∷ u) h k = refl
text_before_trans (c ∷ s) [] u h k = ground arith
text_before_trans (c ∷ s) (d ∷ t) (e ∷ u) h k = ground (arith, text_before_trans s t u)

pub text_eq-before : (s t u : Text) → text_eq s t ≡ true → text_before t u ≡ text_before s u
text_eq-before [] [] u h = refl
text_eq-before [] (d ∷ t) u h = ground arith
text_eq-before (c ∷ s) [] u h = ground arith
text_eq-before (c ∷ s) (d ∷ t) [] h = refl
text_eq-before (c ∷ s) (d ∷ t) (e ∷ u) h = ground (arith, text_eq-before s t u)

pub before-text_eq : (s t u : Text) → text_eq s t ≡ true → text_before u t ≡ text_before u s
before-text_eq [] [] u h = refl
before-text_eq [] (d ∷ t) u h = ground arith
before-text_eq (c ∷ s) [] u h = ground arith
before-text_eq (c ∷ s) (d ∷ t) [] h = refl
before-text_eq (c ∷ s) (d ∷ t) (e ∷ u) h = ground (arith, before-text_eq s t u)

pub text_eq_trans : (s t u : Text) → text_eq s t ≡ true → text_eq t u ≡ text_eq s u
text_eq_trans [] [] u h = refl
text_eq_trans [] (d ∷ t) u h = ground arith
text_eq_trans (c ∷ s) [] u h = ground arith
text_eq_trans (c ∷ s) (d ∷ t) [] h = refl
text_eq_trans (c ∷ s) (d ∷ t) (e ∷ u) h = ground (arith, text_eq_trans s t u)

pub text_eq_symm : (s t : Text) → text_eq s t ≡ text_eq t s
text_eq_symm [] [] = refl
text_eq_symm [] (d ∷ t) = refl
text_eq_symm (c ∷ s) [] = refl
text_eq_symm (c ∷ s) (d ∷ t) = ground (arith, text_eq_symm s t)

pub text_before_irrefl : (t : Text) → text_before t t ≡ false
text_before_irrefl [] = refl
text_before_irrefl (c ∷ t) = ground (arith, text_before_irrefl t)

text_before_asymm : (s t : Text) → text_before s t ≡ true → text_before t s ≡ false
text_before_asymm [] [] h = refl
text_before_asymm [] (d ∷ t) h = refl
text_before_asymm (c ∷ s) [] h = ground arith
text_before_asymm (c ∷ s) (d ∷ t) h = ground (arith, text_before_asymm s t)

pub before-not_after :
    (s t : Text) → (text_before s t || text_eq s t) ≡ true → text_before t s ≡ false
before-not_after s t h =
    ground (arith, text_before_asymm s t, text_eq-before s t s, text_before_irrefl s)
