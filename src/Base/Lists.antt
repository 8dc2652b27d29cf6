-- ===== src/Base/Lists.antt =====
-- Lists measured by native numbers, and predicates on lists by recursion.
use Prim.Native.Nat.{ℕ, suc, ◌+◌}
use mathlib.Core.Path.{◌≡◌, refl, ap, subst}
use mathlib.Core.Logic.{inl, inr}
use mathlib.Core.Bool.{Bool, true, false, ◌&&◌, ◌||◌, false≢true}
use mathlib.Core.Option.{Option, none, some, some-injective}
use mathlib.Core.List.{List, [], ◌∷◌, ◌++◌}
use native.Mathlib.Omega.{arith}
use mw_streamer.Base.Tests.{if◌then◌else◌, Bool-cases}

module _ {ℓ} {A : Type ℓ} where
  abbrev pub length : List A → ℕ
  length [] = 0
  length (x ∷ xs) = suc (length xs)

  -- std::any_of, std::all_of and std::find_if.
  abbrev pub any : (A → Bool) → List A → Bool
  any p [] = false
  any p (x ∷ xs) = p x || any p xs

  abbrev pub all : (A → Bool) → List A → Bool
  all p [] = true
  all p (x ∷ xs) = p x && all p xs

  abbrev pub find? : (A → Bool) → List A → Option A
  find? p [] = none
  find? p (x ∷ xs) = if p x then some x else find? p xs

  pub length-append : (xs ys : List A) → length (xs ++ ys) ≡ length xs + length ys
  length-append [] ys = omega arith
  length-append (x ∷ xs) ys = omega (arith, length-append xs ys)

module _ {ℓ} {A : Type ℓ} where
  pub append_nil : (xs : List A) → xs ++ [] ≡ xs
  append_nil [] = refl
  append_nil (x ∷ xs) = ap (λ t. x ∷ t) (append_nil xs)

  pub ++-assoc : (xs ys zs : List A) → (xs ++ ys) ++ zs ≡ xs ++ (ys ++ zs)
  ++-assoc [] ys zs = refl
  ++-assoc (x ∷ xs) ys zs = ap (λ t. x ∷ t) (++-assoc xs ys zs)

abbrev pub All {ℓ κ} : {A : Type ℓ} → (A → Type κ) → List A → Type κ
All P [] = Unit
All P (x ∷ xs) = P x × All P xs

pub All-append {ℓ κ} :
    {A : Type ℓ} (P : A → Type κ) (xs ys : List A) → All P xs → All P ys → All P (xs ++ ys)
All-append P [] ys hx hy = hy
All-append P (x ∷ xs) ys hx hy = (hx.0, All-append P xs ys hx.1 hy)

pub All-impl {ℓ κ μ} :
    {A : Type ℓ} {P : A → Type κ} {Q : A → Type μ}
    → ((a : A) → P a → Q a)
    → (xs : List A) → All P xs
    → All Q xs
All-impl f [] h = tt
All-impl f (x ∷ xs) h = (f x h.0, All-impl f xs h.1)

-- Each element is related to all that follow it.
abbrev pub Pairwise {ℓ κ} : {A : Type ℓ} → (A → A → Type κ) → List A → Type κ
Pairwise R [] = Unit
Pairwise R (x ∷ xs) = All (R x) xs × Pairwise R xs

-- Each element of the first list is related to each of the second.
abbrev pub AllPairs {ℓ κ} : {A : Type ℓ} → (A → A → Type κ) → List A → List A → Type κ
AllPairs R xs ys = All (λ x. All (R x) ys) xs

module _ {ℓ κ} {A : Type ℓ} (R : A → A → Type κ) where
  pub AllPairs-append :
      (xs ys zs : List A) → AllPairs R (xs ++ ys) zs → AllPairs R xs zs × AllPairs R ys zs
  AllPairs-append [] ys zs h = (tt, h)
  AllPairs-append (x ∷ xs) ys zs h = let (a, b) = AllPairs-append xs ys zs h.1 in ((h.0, a), b)

module _ {ℓ κ} {A : Type ℓ} where
  pub find?-All :
      (P : A → Type κ) (p : A → Bool) (xs : List A) (x : A) → All P xs → find? p xs ≡ some x → P x
  find?-All P p [] x h e = cc
  find?-All P p (y ∷ ys) x h e = elim (Bool-cases (p y)) [
    | inl t ↦ subst P (some-injective _ _ (rw t at e)) h.0
    | inr f ↦ find?-All P p ys x h.1 (rw f at e)
  ]

  pub any-All :
      (P : A → Type κ) (p : A → Bool) (xs : List A)
      → All P xs
      → any p xs ≡ true
      → (x : A) × (p x ≡ true) × P x
  any-All P p [] h e = absurd (false≢true e)
  any-All P p (y ∷ ys) h e = elim (Bool-cases (p y)) [
    | inl t ↦ (y, t, h.0)
    | inr f ↦ any-All P p ys h.1 (rw f at e)
  ]

  pub Pairwise-impl {μ} :
      {R : A → A → Type κ} {S : A → A → Type μ}
      → ((a b : A) → R a b → S a b)
      → (xs : List A) → Pairwise R xs
      → Pairwise S xs
  Pairwise-impl f [] h = tt
  Pairwise-impl f (x ∷ xs) h = (All-impl (f x) xs h.0, Pairwise-impl f xs h.1)

  pub All-split : (P : A → Type κ) (xs ys : List A) → All P (xs ++ ys) → All P xs × All P ys
  All-split P [] ys h = (tt, h)
  All-split P (x ∷ xs) ys h = let (a, b) = All-split P xs ys h.1 in ((h.0, a), b)

  pub All-zip {μ} :
      (P : A → Type κ) (Q : A → Type μ) (xs : List A)
      → All P xs
      → All Q xs
      → All (λ x. P x × Q x) xs
  All-zip P Q [] h k = tt
  All-zip P Q (x ∷ xs) h k = ((h.0, k.0), All-zip P Q xs h.1 k.1)

  pub Pairwise-split :
      (R : A → A → Type κ) (xs ys : List A)
      → Pairwise R (xs ++ ys)
      → Pairwise R xs × AllPairs R xs ys × Pairwise R ys
  Pairwise-split R [] ys h = (tt, tt, h)
  Pairwise-split R (x ∷ xs) ys h =
      let (a, b) = All-split (R x) xs ys h.0 in
      let (c, d, e) = Pairwise-split R xs ys h.1 in ((a, c), (b, d), e)

  pub Pairwise-append :
      (R : A → A → Type κ) (xs ys : List A)
      → Pairwise R xs
      → AllPairs R xs ys
      → Pairwise R ys
      → Pairwise R (xs ++ ys)
  Pairwise-append R [] ys a b c = c
  Pairwise-append R (x ∷ xs) ys a b c =
      (All-append (R x) xs ys a.0 b.0, Pairwise-append R xs ys a.1 b.1 c)
