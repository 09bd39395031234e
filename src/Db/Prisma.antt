-- ===== src/Db/Prisma.antt =====
-- The Prisma client, a package that the flows only call: a record of the queries that they make, and
-- what its documentation says of each, over a table as its list of rows. `findUnique` is
-- `find_first` on a unique column.
use arc_id.Base.{
  ℕ, zero, suc, ◌≡◌, refl, sym, subst, Bool, Option, none, some, List, [], ◌∷◌, ◌++◌, leb, find,
  select, modify, count, any, if◌then◌else◌,
}

pub record Prisma : Type 1 where
  pub find_first : (R : Type 0) → (R → Bool) → List R → Option R
  pub find_latest : (R : Type 0) → (R → ℕ) → (R → Bool) → List R → Option R
  pub find_many : (R : Type 0) → (R → Bool) → List R → List R
  pub find_oldest : (R : Type 0) → (R → ℕ) → (R → Bool) → ℕ → List R → List R
  pub count_rows : (R : Type 0) → (R → Bool) → List R → ℕ
  pub update_many : (R : Type 0) → (R → Bool) → (R → R) → List R → List R × ℕ
  pub delete_many : (R : Type 0) → (R → Bool) → List R → List R × ℕ
  pub create : (R : Type 0) → (R → Bool) → R → List R → Option (List R)
  -- What a transaction leaves, by whether its function resolved, of the contents before it and the
  -- contents that the function's writes made.
  pub settle : (D : Type 0) → Bool → D → D → D

module _ {ℓ} {A : Type ℓ} where
  -- `orderBy: { key: "desc" }`: of equal keys the earlier row.
  abbrev newer : (A → ℕ) → A → Option A → Option A
  newer key x none = some x
  newer key x (some y) = if leb (key y) (key x) then some x else some y

  abbrev pub latest : (A → ℕ) → List A → Option A
  latest key [] = none
  latest key (x ∷ xs) = newer key x (latest key xs)

  -- `orderBy: { key: "asc" }`, a stable insertion sort.
  abbrev pub insert : (A → ℕ) → A → List A → List A
  insert key x [] = x ∷ []
  insert key x (y ∷ ys) = if leb (key x) (key y) then x ∷ y ∷ ys else y ∷ insert key x ys

  abbrev pub sort : (A → ℕ) → List A → List A
  sort key [] = []
  sort key (x ∷ xs) = insert key x (sort key xs)

  abbrev pub take : ℕ → List A → List A
  take zero xs = []
  take (suc n) [] = []
  take (suc n) (x ∷ xs) = x ∷ take n xs

  -- The rows that `deleteMany` leaves.
  abbrev pub discard : (A → Bool) → List A → List A
  discard p [] = []
  discard p (x ∷ xs) = if p x then discard p xs else x ∷ discard p xs

-- The documented effect of the queries: matching rows by `where`, changes by `data`, the number of
-- rows changed, order and limit, and a failure (P2002) where a unique column would repeat; a
-- transaction whose function throws leaves what was there before.
abbrev pub documented : Prisma
documented = record {
  find_first = λ R p t. find p t;
  find_latest = λ R key p t. latest key (select p t);
  find_many = λ R p t. select p t;
  find_oldest = λ R key p n t. take n (sort key (select p t));
  count_rows = λ R p t. count p t;
  update_many = λ R p f t. (modify p f t, count p t);
  delete_many = λ R p t. (discard p t, count p t);
  create = λ R clash r t. if any clash t then none else some (t ++ r ∷ []);
  settle = λ D resolved before after. if resolved then after else before;
}

pub record IsDocumented (q : Prisma) : Type 1 where
  pub find_first_lem : (R : Type 0) (p : R → Bool) (t : List R) → q.find_first R p t ≡ find p t
  pub find_latest_lem :
      (R : Type 0) (key : R → ℕ) (p : R → Bool) (t : List R)
      → q.find_latest R key p t ≡ latest key (select p t)
  pub find_many_lem : (R : Type 0) (p : R → Bool) (t : List R) → q.find_many R p t ≡ select p t
  pub find_oldest_lem :
      (R : Type 0) (key : R → ℕ) (p : R → Bool) (n : ℕ) (t : List R)
      → q.find_oldest R key p n t ≡ take n (sort key (select p t))
  pub count_rows_lem : (R : Type 0) (p : R → Bool) (t : List R) → q.count_rows R p t ≡ count p t
  pub update_many_lem :
      (R : Type 0) (p : R → Bool) (f : R → R) (t : List R)
      → q.update_many R p f t ≡ (modify p f t, count p t)
  pub delete_many_lem :
      (R : Type 0) (p : R → Bool) (t : List R) → q.delete_many R p t ≡ (discard p t, count p t)
  pub create_lem :
      (R : Type 0) (clash : R → Bool) (r : R) (t : List R)
      → q.create R clash r t ≡ (if any clash t then none else some (t ++ r ∷ []))
  pub settle_lem :
      (D : Type 0) (resolved : Bool) (before after : D)
      → q.settle D resolved before after ≡ (if resolved then after else before)

pub documented-IsDocumented : IsDocumented documented
documented-IsDocumented = record {
  find_first_lem = λ R p t. refl;
  find_latest_lem = λ R key p t. refl;
  find_many_lem = λ R p t. refl;
  find_oldest_lem = λ R key p n t. refl;
  count_rows_lem = λ R p t. refl;
  update_many_lem = λ R p f t. refl;
  delete_many_lem = λ R p t. refl;
  create_lem = λ R clash r t. refl;
  settle_lem = λ D resolved before after. refl;
}

eq-documented : (q : Prisma) → IsDocumented q → documented ≡ q
eq-documented q d = sym λ i. record {
  find_first = λ R p t. d.find_first_lem R p t i;
  find_latest = λ R key p t. d.find_latest_lem R key p t i;
  find_many = λ R p t. d.find_many_lem R p t i;
  find_oldest = λ R key p n t. d.find_oldest_lem R key p n t i;
  count_rows = λ R p t. d.count_rows_lem R p t i;
  update_many = λ R p f t. d.update_many_lem R p f t i;
  delete_many = λ R p t. d.delete_many_lem R p t i;
  create = λ R clash r t. d.create_lem R clash r t i;
  settle = λ D resolved before after. d.settle_lem D resolved before after i;
}

-- What holds with the documented queries holds with any client that keeps to its documentation.
pub by_documentation {ℓ} : (P : Prisma → Type ℓ) {q : Prisma} → IsDocumented q → P documented → P q
by_documentation P {q} d h = subst P (eq-documented q d) h
