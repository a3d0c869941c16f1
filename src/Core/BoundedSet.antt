-- ===== src/Core/BoundedSet.antt =====
-- The loop of `BootstrapSet::try_from_iter` and `ResolvedAddressSet::try_from_iter`
-- (crates/kafka-driver-core/src/bootstrap/set.rs and resolution/address_set.rs), which have the same
-- body: a bounded sequence keeps the first occurrence of each entry.
pub mod Laws
pub mod Members
use kafka_driver.Base.{ℕ, suc, List, [], ◌∷◌, ◌++◌, ◌==◌, if◌then◌else◌, Eq, contains}

-- `BootstrapError` and `ResolvedAddressSetError` have the same variants.
pub data SetError : Type 0 where
  empty : SetError
  capacity : (limit : ℕ) → SetError

pub data Admission {ℓ} (A : Type ℓ) : Type ℓ where
  admitted : List A → Admission A
  refused : SetError → Admission A

module _ {ℓ} {A : Type ℓ} where
  unfoldable pub finish : List A → Admission A
  finish [] = refused empty
  finish (x ∷ xs) = admitted (x ∷ xs)

module _ {ℓ} {A : Type ℓ} ⦃e : Eq A⦄ where
  abbrev pub push_new : List A → A → List A
  push_new unique x = if contains unique x then unique else unique ++ x ∷ []

  -- The loop, with the entries inspected and those kept so far.
  unfoldable pub keep_unique : (limit inspected : ℕ) → (unique : List A) → List A → Admission A
  unfolding finish
  keep_unique limit inspected unique [] = finish unique
  keep_unique limit inspected unique (x ∷ xs) =
      let rest = keep_unique limit (suc inspected) (push_new unique x) xs in
      if inspected == limit then refused (capacity limit) else rest

  unfoldable pub try_from_iter : List A → (limit : ℕ) → Admission A
  unfolding keep_unique
  try_from_iter xs limit = keep_unique limit 0 [] xs
