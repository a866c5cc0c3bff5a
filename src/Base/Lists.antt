-- ===== src/Base/Lists.antt =====
-- Lists measured by native numbers, and sets of texts kept as lists.
use Prim.Native.Nat.{ℕ, suc, ◌≤◌}
use Prim.Native.String.{String}
use mathlib.Core.Path.{◌≡◌, refl}
use mathlib.Core.Bool.{Bool, false, ◌||◌}
use mathlib.Core.List.{List, [], ◌∷◌, ◌++◌}
use native.Mathlib.Omega.{arith}
use text.Mathlib.Text.{◌==◌}
use text.Mathlib.TextEquality.{eq_iff}
use backsnap.Base.Tests.{if◌then◌else◌}

module _ {ℓ} {A : Type ℓ} where
  abbrev pub length : List A → ℕ
  length [] = 0
  length (x ∷ xs) = suc (length xs)

  -- `P` holds at each item.
  abbrev pub All {κ} : (A → Type κ) → List A → Type κ
  All P [] = Unit
  All P (x ∷ xs) = P x × All P xs

  -- Some item satisfies the test.
  abbrev pub any : (A → Bool) → List A → Bool
  any p [] = false
  any p (x ∷ xs) = p x || any p xs

-- The items that satisfy the test.
abbrev pub filter {ℓ} : {A : Type ℓ} → (A → Bool) → List A → List A
filter p [] = []
filter p (x ∷ xs) = let rest = filter p xs in if p x then x ∷ rest else rest

-- The item stands in the list.
abbrev pub elem : String → List String → Bool
elem k [] = false
elem k (x ∷ xs) = x == k || elem k xs

-- No text stands twice.
abbrev pub IsNodup : List String → Type 0
IsNodup [] = Unit
IsNodup (x ∷ xs) = (elem x xs ≡ false) × IsNodup xs

-- A set of texts: adding one that is there changes nothing.
unfoldable pub add : String → List String → List String
add k xs = if elem k xs then xs else k ∷ xs

unfoldable pub remove : String → List String → List String
remove k [] = []
remove k (x ∷ xs) = let rest = remove k xs in if x == k then rest else x ∷ rest

pub elem-add : (j k : String) (xs : List String) → elem j (add k xs) ≡ (k == j || elem j xs)
unfolding add
elem-add j k xs = ground (arith, eq_iff k j)

pub elem-remove :
    (j k : String) (xs : List String) → elem j (remove k xs) ≡ (if k == j then false else elem j xs)
unfolding remove
elem-remove j k [] = ground arith
elem-remove j k (x ∷ xs) = ground (arith, elem-remove j k xs, eq_iff x k, eq_iff x j, eq_iff k j)

pub add-IsNodup : (k : String) (xs : List String) → IsNodup xs → IsNodup (add k xs)
unfolding add
add-IsNodup k xs h = ground arith

pub remove-IsNodup : (k : String) (xs : List String) → IsNodup xs → IsNodup (remove k xs)
unfolding remove
remove-IsNodup k [] h = tt
remove-IsNodup k (x ∷ xs) h =
    ground (arith, remove-IsNodup k xs h.1, elem-remove x k xs, eq_iff x k, eq_iff k x)

pub length-remove : (k : String) (xs : List String) → length (remove k xs) ≤ length xs
unfolding remove
length-remove k [] = omega arith
length-remove k (x ∷ xs) = ground (arith, length-remove k xs)

pub elem-append : (k : String) (xs ys : List String) → elem k (xs ++ ys) ≡ (elem k xs || elem k ys)
elem-append k [] ys = refl
elem-append k (x ∷ xs) ys = ground (arith, elem-append k xs ys)

-- The head and the tail of a list, rewritten.
pub rewrite_cons :
    {A : Type 0} {x x' : A} {xs xs' l : List A} → l ≡ x ∷ xs → x ≡ x' → xs ≡ xs' → l ≡ x' ∷ xs'
rewrite_cons e p q = cc
