-- ===== src/Go/Strings.antt =====
-- What the source uses of Go's package strings, on valid UTF-8.
use Prim.Native.Char.{Char, code}
use Prim.Native.String.append
use backsnap.Base.{ℕ, ◌≡◌, refl, String, ◌<>◌, Bool, false, ◌&&◌, ◌||◌, Option, none, some}
use backsnap.Base.{List, [], ◌∷◌, leb, ◌==◌, if◌then◌else◌}

-- unicode.IsSpace
unfoldable pub is_space : ℕ → Bool
is_space c =
    leb 9 c && leb c 13
    || c == 32
    || c == 133
    || c == 160
    || c == 5760
    || leb 8192 c && leb c 8202
    || c == 8232
    || c == 8233
    || c == 8239
    || c == 8287
    || c == 12288

abbrev prepend : Char → List String → List String
prepend c [] = String.◌∷◌ c String.[] ∷ []
prepend c (x ∷ xs) = String.◌∷◌ c x ∷ xs

-- `strings.Split(s, ",")`
unfoldable pub split_commas : String → List String
split_commas String.[] = String.[] ∷ []
split_commas (String.◌∷◌ c s) =
    let rest = split_commas s in if code c == b',' then String.[] ∷ rest else prepend c rest

unfoldable pub trim_left : String → String
unfolding is_space
trim_left String.[] = String.[]
trim_left (String.◌∷◌ c s) =
    let rest = trim_left s in if is_space (code c) then rest else String.◌∷◌ c s

abbrev cons_unless_blank : Char → String → String
cons_unless_blank c String.[] = if is_space (code c) then String.[] else String.◌∷◌ c String.[]
cons_unless_blank c (String.◌∷◌ d s) = String.◌∷◌ c (String.◌∷◌ d s)

unfoldable pub trim_right : String → String
unfolding is_space
trim_right String.[] = String.[]
trim_right (String.◌∷◌ c s) = cons_unless_blank c (trim_right s)

-- `strings.TrimSpace`
abbrev pub trim_space : String → String
trim_space s = trim_right (trim_left s)

-- `strings.Cut(s, "=")`; `none` where there is no "=".
unfoldable pub cut_equals : String → Option (String × String)
cut_equals String.[] = none
cut_equals (String.◌∷◌ c s) =
    let rest = cut_equals s in
    if code c == b'='
    then some (String.[], s)
    else elim rest [ none ↦ none | some (k, v) ↦ some (String.◌∷◌ c k, v) ]

-- No character is "=".
abbrev pub HasNoEquals : String → Type 0
HasNoEquals String.[] = Unit
HasNoEquals (String.◌∷◌ c s) = ((code c == b'=') ≡ false) × HasNoEquals s

pub cut_equals-append : (k v : String) → HasNoEquals k → cut_equals (k <> ("=" <> v)) ≡ some (k, v)
unfolding cut_equals
cut_equals-append String.[] v h =
    rw (append.nil ("=" <> v), append.cons "=" String.[] v, append.nil v) refl
cut_equals-append (String.◌∷◌ c k) v h =
    rw (append.cons c k ("=" <> v), h.0, cut_equals-append k v h.1) refl

split_trim : split_commas "a, b" ≡ "a" ∷ " b" ∷ []
unfolding split_commas
split_trim = refl

trim_both : trim_space " a b " ≡ "a b"
unfolding trim_left trim_right
trim_both = refl
