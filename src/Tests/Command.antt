-- ===== src/Tests/Command.antt =====
-- The theorems on the command line, on concrete flags.
use backsnap.Base.{◌≡◌, ◌≢◌, refl, String, ◌<>◌, some, [], ◌∷◌, map, elem, if◌then◌else◌, str_eq}
use backsnap.Base.Dict.{Dict, lookup}
use backsnap.Go.Strings.{split_commas, trim_space, trim_left, trim_right}
use backsnap.Backup.Running.{all_namespaces}
use backsnap.Flags.{watched, listed, set_key_value, watched_lem, set_key_value_lem}
use backsnap.Tests.Helpers.{plain_lo, plain_lo-IsLawful}

names : watched plain_lo "shop, ,web " ≡ "shop" ∷ "web" ∷ []
unfolding watched listed split_commas trim_left trim_right
names = refl

no_names : watched plain_lo " ," ≡ "" ∷ []
unfolding watched listed split_commas trim_left trim_right
no_names = refl

watched_lem_example :
    let ns = watched plain_lo "shop, ,web " in
    (elem "" ns ≡ all_namespaces ns)
    × ((k : String) → k ≢ "" → elem k ns ≡ elem k (map trim_space (split_commas "shop, ,web ")))
watched_lem_example = watched_lem plain_lo plain_lo-IsLawful "shop, ,web "

abbrev given : Dict String
given = ("LIMIT", "1") ∷ []

set_key_value_lem_example :
    (g : Dict String) × (set_key_value given ("LIMIT" <> ("=" <> "a=b")) ≡ some g)
    × ((k : String) → lookup k g ≡ (if str_eq "LIMIT" k then some "a=b" else lookup k given))
set_key_value_lem_example =
    set_key_value_lem given "LIMIT" "a=b" (refl, (refl, (refl, (refl, (refl, tt)))))
