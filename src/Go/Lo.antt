-- ===== src/Go/Lo.antt =====
-- The helpers of github.com/samber/lo that the source calls. They are third-party code, so they
-- are a parameter; what the source relies on of them is `IsLawful`, as their documentation has it.
use backsnap.Base.{ℕ, String, Bool, true, none, List, map, foldl, ◌≡◌, ◌≢◌, ◌↔◌}
use backsnap.Base.{filter, elem, any, IsNodup}
use backsnap.Base.Dict.{Dict, lookup}
use mathlib.Core.Option

pub record Lo : Type 1 where
  pub contains : List String → String → Bool
  pub contains_by : (A : Type 0) → List A → (A → Bool) → Bool
  pub keys : Dict String → List String
  pub assign : Dict String → Dict String → Dict String
  -- The callback also takes the index.
  pub map_with : (A B : Type 0) → List A → (A → ℕ → B) → List B
  pub filter_with : (A : Type 0) → List A → (A → ℕ → Bool) → List A
  pub reduce : (A R : Type 0) → List A → (R → A → ℕ → R) → R → R

pub record IsLawful (lo : Lo) : Type 1 where
  -- Contains returns true if an element is present in a collection.
  pub contains-eq : (xs : List String) (x : String) → lo.contains xs x ≡ elem x xs
  -- ContainsBy returns true if predicate function return true.
  pub contains_by-eq : (A : Type 0) (xs : List A) (p : A → Bool) → lo.contains_by A xs p ≡ any p xs
  -- Keys creates an array of the map keys.
  pub keys-elem : (d : Dict String) (k : String) → (elem k (lo.keys d) ≡ true) ↔ (lookup k d ≢ none)
  pub keys-IsNodup : (d : Dict String) → IsNodup (lo.keys d)
  -- Assign merges multiple maps from left to right.
  pub lookup-assign :
      (d e : Dict String) (k : String)
      → lookup k (lo.assign d e) ≡ Option.or_else (lookup k e) (lookup k d)
  -- Map manipulates a slice and transforms it to a slice of another type.
  pub map_with-eq :
      (A B : Type 0) (xs : List A) (f : A → B) → lo.map_with A B xs (λ a _. f a) ≡ map f xs
  -- Filter iterates over elements of collection, returning an array of all elements predicate
  -- returns truthy for.
  pub filter_with-eq :
      (A : Type 0) (xs : List A) (p : A → Bool) → lo.filter_with A xs (λ a _. p a) ≡ filter p xs
  -- Reduce reduces a collection to a value, accumulating the result of each call.
  pub reduce-eq :
      (A R : Type 0) (xs : List A) (f : R → A → R) (r : R)
      → lo.reduce A R xs (λ acc a _. f acc a) r ≡ foldl f r xs
