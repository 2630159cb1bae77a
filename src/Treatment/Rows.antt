-- ===== src/Treatment/Rows.antt =====
-- How updates of the table change what the queries find.
use nuclei_dashboard.Base.{
  Bool, List, [], any, arith, count_if, count_if-update_where_le, false, find, none, refl, some,
  true, update_where, ◌∷◌, ◌≡◌, ◌≤◌,
}

module _ {A : Type 0} (p test : A → Bool) (change : A → A) where
  -- An update of rows that a query does not find, into rows that it does not find, changes nothing
  -- for it.
  pub find-update_where_other :
      ((x : A) → test x ≡ true → (p x ≡ false) × (p (change x) ≡ false))
      → (xs : List A) → find p (update_where test change xs) ≡ find p xs
  find-update_where_other apart [] = refl
  find-update_where_other apart (x ∷ xs) = ground (arith, apart x, find-update_where_other apart xs)

pub count_if-find : {A : Type 0} (p : A → Bool) (xs : List A) → find p xs ≡ none → count_if p xs ≡ 0
count_if-find p [] h = refl
count_if-find p (x ∷ xs) h = ground (arith, count_if-find p xs)

pub find-passes_lem :
    {A : Type 0} (p : A → Bool) (xs : List A) (x : A) → find p xs ≡ some x → p x ≡ true
find-passes_lem p [] x h = ground arith
find-passes_lem p (y ∷ xs) x h = let ih = find-passes_lem p xs x in ground arith

find-none_of_count :
    {A : Type 0} (p : A → Bool) (xs : List A) → count_if p xs ≡ 0 → find p xs ≡ none
find-none_of_count p [] h = refl
find-none_of_count p (x ∷ xs) h = ground (arith, find-none_of_count p xs)

count_if-find-some :
    {A : Type 0} (p q : A → Bool) (xs : List A) (x : A)
    → find p xs ≡ some x
    → q x ≡ true
    → 1 ≤ count_if q xs
count_if-find-some p q [] x h hq = ground arith
count_if-find-some p q (y ∷ xs) x h hq = let ih = count_if-find-some p q xs x in ground arith

-- Where a query finds one row at most, it finds any row that passes it.
pub find_unique :
    {A : Type 0} (p q : A → Bool) (xs : List A) (x y : A)
    → count_if q xs ≤ 1
    → find q xs ≡ some x
    → find p xs ≡ some y
    → q y ≡ true
    → y ≡ x
find_unique p q [] x y few hx hy hq = ground arith
find_unique p q (z ∷ xs) x y few hx hy hq =
    let ih = find_unique p q xs x y in let c = count_if-find-some p q xs y in ground arith

module _ {A : Type 0} (p test : A → Bool) (change : A → A) where
  -- The one row that a query finds is updated into one that it does not find.
  pub find-update_where-none :
      ((x : A) → test x ≡ true → p (change x) ≡ false)
      → (xs : List A) (x : A) → count_if p xs ≤ 1
      → find p xs ≡ some x
      → test x ≡ true
      → find p (update_where test change xs) ≡ none
  find-update_where-none out [] x few h t = refl
  find-update_where-none out (y ∷ xs) x few h t =
      let ih = find-update_where-none out xs x in
      let o = out y in
      let le = count_if-update_where_le p test change (λ z tz pz. ground (arith, out z)) xs in
      let n = find-none_of_count p (update_where test change xs) in ground arith

  -- The row that one query finds is updated into one that another query finds, which found none.
  pub find-update_where-some :
      (xs : List A) (x : A)
      → find p xs ≡ none
      → find test xs ≡ some x
      → p (change x) ≡ true
      → find p (update_where test change xs) ≡ some (change x)
  find-update_where-some [] x n h c = ground arith
  find-update_where-some (y ∷ xs) x n h c = let ih = find-update_where-some xs x in ground arith

  update_where-absent : (xs : List A) → count_if test xs ≡ 0 → update_where test change xs ≡ xs
  update_where-absent [] h = refl
  update_where-absent (y ∷ xs) h = let ih = update_where-absent xs in ground arith

  -- The one row that is updated is no row of another query, before or after.
  pub find-update_where_found :
      (xs : List A) (x : A)
      → count_if test xs ≤ 1
      → find test xs ≡ some x
      → p x ≡ false
      → p (change x) ≡ false
      → find p (update_where test change xs) ≡ find p xs
  find-update_where_found [] x few h a b = refl
  find-update_where_found (y ∷ xs) x few h a b =
      let ih = find-update_where_found xs x in let same = update_where-absent xs in ground arith

  -- An update whose rows do not pass a test adds none that do.
  pub any-update_where-false :
      ((x : A) → test x ≡ true → p (change x) ≡ false)
      → (xs : List A) → any p xs ≡ false
      → any p (update_where test change xs) ≡ false
  any-update_where-false out [] h = refl
  any-update_where-false out (x ∷ xs) h =
      let ih = any-update_where-false out xs in let o = out x in ground arith
