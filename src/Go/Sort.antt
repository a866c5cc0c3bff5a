-- ===== src/Go/Sort.antt =====
-- `slices.Sort` of strings, in Go's order of strings (by bytes). The order of the result is all
-- that the source relies on, so insertion sort stands for the library's pattern-defeating quicksort.
use Prim.Native.Nat.{Ordering}
use Prim.Native.String.{compare}
use backsnap.Base.{String, Bool, true, false, List, [], ◌∷◌, ◌≡◌, ◌||◌, arith, if◌then◌else◌}
use backsnap.Base.{elem, str_eq, eq_iff, IsNodup}

-- `a <= b`
unfoldable pub str_le : String → String → Bool
str_le a b = elim (compare a b) [ Ordering.gt ↦ false | _ ↦ true ]

unfoldable pub insert_sorted : String → List String → List String
unfolding str_le
insert_sorted a [] = a ∷ []
insert_sorted a (x ∷ xs) = if str_le a x then a ∷ x ∷ xs else x ∷ insert_sorted a xs

unfoldable pub sort : List String → List String
unfolding insert_sorted
sort [] = []
sort (x ∷ xs) = insert_sorted x (sort xs)

elem-insert_sorted :
    (k a : String) (xs : List String) → elem k (insert_sorted a xs) ≡ (str_eq a k || elem k xs)
unfolding insert_sorted
elem-insert_sorted k a [] = ground arith
elem-insert_sorted k a (x ∷ xs) = ground (arith, elem-insert_sorted k a xs)

-- Sorting keeps the items.
pub elem-sort : (k : String) (xs : List String) → elem k (sort xs) ≡ elem k xs
unfolding sort
elem-sort k [] = ground arith
elem-sort k (x ∷ xs) = ground (arith, elem-sort k xs, elem-insert_sorted k x (sort xs))

insert_sorted-IsNodup :
    (a : String) (xs : List String) → elem a xs ≡ false → IsNodup xs → IsNodup (insert_sorted a xs)
unfolding insert_sorted
insert_sorted-IsNodup a [] h n = ground arith
insert_sorted-IsNodup a (x ∷ xs) h n =
    ground (arith, insert_sorted-IsNodup a xs, elem-insert_sorted x a xs, eq_iff a x, eq_iff x a)

pub sort-IsNodup : (xs : List String) → IsNodup xs → IsNodup (sort xs)
unfolding sort
sort-IsNodup [] n = tt
sort-IsNodup (x ∷ xs) n =
    insert_sorted-IsNodup x (sort xs) (ground (arith, elem-sort x xs)) (sort-IsNodup xs n.1)
