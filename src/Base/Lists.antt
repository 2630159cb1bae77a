-- ===== src/Base/Lists.antt =====
-- Lists measured by native numbers, predicates on their items, and Boolean searches.
use Prim.Native.Nat.{suc, ℕ, ◌+◌, ◌≤◌}
use mathlib.Core.Path.{refl, sym, ◌≡◌}
use mathlib.Core.Bool.{Bool, true, false, ◌||◌}
use mathlib.Core.Option.{Option, none, some}
use mathlib.Core.List.{append_assoc, List, [], map, ◌++◌, ◌∷◌}
use native.Mathlib.Omega.{arith}
use nuclei_dashboard.Base.Tests.{◌==◌, if◌then◌else◌}

module _ {ℓ} {A : Type ℓ} where
  abbrev pub length : List A → ℕ
  length [] = 0
  length (x ∷ xs) = suc (length xs)

  -- `any(test(x) for x in xs)`
  abbrev pub any : (A → Bool) → List A → Bool
  any test [] = false
  any test (x ∷ xs) = test x || any test xs

  pub length-append : (xs ys : List A) → length (xs ++ ys) ≡ length xs + length ys
  length-append [] ys = omega arith
  length-append (x ∷ xs) ys = omega (arith, length-append xs ys)

-- The items of a list of lists, in order.
abbrev pub concat {ℓ} : {A : Type ℓ} → List (List A) → List A
concat [] = []
concat (xs ∷ xss) = xs ++ concat xss

-- `sum(xs)`
abbrev pub sum : List ℕ → ℕ
sum [] = 0
sum (x ∷ xs) = x + sum xs

-- `x in xs`
abbrev pub contains : List ℕ → ℕ → Bool
contains xs n = any (λ x. x == n) xs

pub sum-append : (xs ys : List ℕ) → sum (xs ++ ys) ≡ sum xs + sum ys
sum-append [] ys = omega arith
sum-append (x ∷ xs) ys = omega (arith, sum-append xs ys)

-- Every item satisfies the predicate.
abbrev pub All {ℓ κ} : {A : Type ℓ} → (A → Type κ) → List A → Type κ
All P [] = Unit
All P (x ∷ xs) = P x × All P xs

pub All-append {ℓ κ} :
    {A : Type ℓ} (P : A → Type κ) (xs ys : List A) → All P xs → All P ys → All P (xs ++ ys)
All-append P [] ys hx hy = hy
All-append P (x ∷ xs) ys hx hy = (hx.0, All-append P xs ys hx.1 hy)

pub All-map {ℓ κ} :
    {A B : Type ℓ} (P : B → Type κ) (Q : A → Type κ) (f : A → B)
    → ((x : A) → Q x → P (f x))
    → (xs : List A) → All Q xs
    → All P (map f xs)
All-map P Q f step [] h = h
All-map P Q f step (x ∷ xs) h = (step x h.0, All-map P Q f step xs h.1)

pub any-append {ℓ} :
    {A : Type ℓ} (test : A → Bool) (xs ys : List A)
    → any test (xs ++ ys) ≡ (any test xs || any test ys)
any-append test [] ys = refl
any-append test (x ∷ xs) ys = ground (arith, any-append test xs ys)

pub concat-append {ℓ} :
    {A : Type ℓ} (xss yss : List (List A)) → concat (xss ++ yss) ≡ concat xss ++ concat yss
concat-append [] yss = refl
concat-append (xs ∷ xss) yss =
    rw (concat-append xss yss) (sym (append_assoc xs (concat xss) (concat yss)))

module _ {ℓ} {A : Type ℓ} where
  -- How many items pass a test.
  abbrev pub count_if : (A → Bool) → List A → ℕ
  count_if test [] = 0
  count_if test (x ∷ xs) = (if test x then 1 else 0) + count_if test xs

  -- SQL's `UPDATE … WHERE`: the rows that pass the test are changed.
  abbrev pub update_where : (A → Bool) → (A → A) → List A → List A
  update_where test change [] = []
  update_where test change (x ∷ xs) = (if test x then change x else x) ∷ update_where test change xs

  -- The first row that passes the test.
  abbrev pub find : (A → Bool) → List A → Option A
  find test [] = none
  find test (x ∷ xs) = if test x then some x else find test xs

  pub count_if_of_any : (test : A → Bool) (xs : List A) → any test xs ≡ false → count_if test xs ≡ 0
  count_if_of_any test [] h = refl
  count_if_of_any test (x ∷ xs) h = ground (arith, count_if_of_any test xs)

  pub any_of_count_if : (test : A → Bool) (xs : List A) → count_if test xs ≡ 0 → any test xs ≡ false
  any_of_count_if test [] h = refl
  any_of_count_if test (x ∷ xs) h = ground (arith, any_of_count_if test xs)

  -- A test that follows from another passes no more often.
  pub count_if_mono :
      (p q : A → Bool)
      → ((x : A) → p x ≡ true → q x ≡ true)
      → (xs : List A) → count_if p xs ≤ count_if q xs
  count_if_mono p q step [] = omega arith
  count_if_mono p q step (x ∷ xs) = ground (arith, step x, count_if_mono p q step xs)

  -- What an update adds to a count, it adds at the rows that it changes.
  pub count_if-update_where :
      (p test : A → Bool) (change : A → A) (xs : List A)
      → count_if p (update_where test change xs) ≤ count_if p xs + count_if test xs
  count_if-update_where p test change [] = omega arith
  count_if-update_where p test change (x ∷ xs) =
      ground (arith, count_if-update_where p test change xs)

  -- An update that makes no row pass raises no count.
  pub count_if-update_where_le :
      (p test : A → Bool) (change : A → A)
      → ((x : A) → test x ≡ true → p (change x) ≡ true → p x ≡ true)
      → (xs : List A) → count_if p (update_where test change xs) ≤ count_if p xs
  count_if-update_where_le p test change step [] = omega arith
  count_if-update_where_le p test change step (x ∷ xs) =
      ground (arith, step x, count_if-update_where_le p test change step xs)

  pub count_if-append :
      (test : A → Bool) (xs ys : List A)
      → count_if test (xs ++ ys) ≡ count_if test xs + count_if test ys
  count_if-append test [] ys = omega arith
  count_if-append test (x ∷ xs) ys = omega (arith, count_if-append test xs ys)
