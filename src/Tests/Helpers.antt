-- ===== src/Tests/Helpers.antt =====
-- A version of the helpers of samber/lo that meets their documentation.
use backsnap.Base.{
  filter, if◌then◌else◌, ℕ, ◌+◌, String, Bool, true, none, List, [], ◌∷◌, ◌++◌, map, foldl, ◌≡◌,
  ◌≢◌, ◌↔◌, refl, ap,
}
use backsnap.Base.{elem, any, IsNodup, add, elem-add, add-IsNodup, arith, eq_iff}
use backsnap.Base.Dict.{Dict, lookup}
use backsnap.Go.Lo.{Lo, IsLawful}
use mathlib.Core.Option

abbrev keys : Dict String → List String
keys [] = []
keys ((k, _) ∷ d) = add k (keys d)

abbrev map_from : {A B : Type 0} → ℕ → List A → (A → ℕ → B) → List B
map_from i [] f = []
map_from i (a ∷ xs) f = f a i ∷ map_from (1 + i) xs f

abbrev filter_from : {A : Type 0} → ℕ → List A → (A → ℕ → Bool) → List A
filter_from i [] p = []
filter_from i (a ∷ xs) p = let rest = filter_from (1 + i) xs p in if p a i then a ∷ rest else rest

abbrev reduce_from : {A R : Type 0} → ℕ → List A → (R → A → ℕ → R) → R → R
reduce_from i [] f r = r
reduce_from i (a ∷ xs) f r = reduce_from (1 + i) xs f (f r a i)

abbrev pub plain_lo : Lo
plain_lo = record {
  contains = λ xs x. elem x xs;
  contains_by = λ A xs p. any p xs;
  keys = keys;
  assign = λ d e. e ++ d;
  map_with = λ A B xs f. map_from 0 xs f;
  filter_with = λ A xs p. filter_from 0 xs p;
  reduce = λ A R xs f r. reduce_from 0 xs f r;
}

keys-elem : (d : Dict String) (k : String) → (elem k (keys d) ≡ true) ↔ (lookup k d ≢ none)
unfolding lookup
keys-elem [] k = ground arith
keys-elem ((j, v) ∷ d) k = ground (arith, keys-elem d k, elem-add k j (keys d), eq_iff j k)

keys-IsNodup : (d : Dict String) → IsNodup (keys d)
keys-IsNodup [] = tt
keys-IsNodup ((k, _) ∷ d) = add-IsNodup k (keys d) (keys-IsNodup d)

lookup-append :
    (e d : Dict String) (k : String) → lookup k (e ++ d) ≡ Option.or_else (lookup k e) (lookup k d)
unfolding Option.or_else lookup
lookup-append [] d k = refl
lookup-append ((j, v) ∷ e) d k = ground (arith, lookup-append e d k)

map_from-eq :
    {A B : Type 0} (i : ℕ) (xs : List A) (f : A → B) → map_from i xs (λ a _. f a) ≡ map f xs
map_from-eq i [] f = refl
map_from-eq i (x ∷ xs) f = ap (λ (l : List _). f x ∷ l) (map_from-eq (1 + i) xs f)

filter_from-eq :
    {A : Type 0} (i : ℕ) (xs : List A) (p : A → Bool) → filter_from i xs (λ a _. p a) ≡ filter p xs
filter_from-eq i [] p = refl
filter_from-eq i (x ∷ xs) p =
    ap (λ (l : List _). if p x then x ∷ l else l) (filter_from-eq (1 + i) xs p)

reduce_from-eq :
    {A R : Type 0} (i : ℕ) (xs : List A) (f : R → A → R) (r : R)
    → reduce_from i xs (λ acc a _. f acc a) r ≡ foldl f r xs
reduce_from-eq i [] f r = refl
reduce_from-eq i (x ∷ xs) f r = reduce_from-eq (1 + i) xs f (f r x)

pub plain_lo-IsLawful : IsLawful plain_lo
plain_lo-IsLawful = record {
  contains-eq = λ xs x. refl;
  contains_by-eq = λ A xs p. refl;
  keys-elem = keys-elem;
  keys-IsNodup = keys-IsNodup;
  lookup-assign = λ d e k. lookup-append e d k;
  map_with-eq = λ A B xs f. map_from-eq 0 xs f;
  filter_with-eq = λ A xs p. filter_from-eq 0 xs p;
  reduce-eq = λ A R xs f r. reduce_from-eq 0 xs f r;
}
