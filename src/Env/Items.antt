-- ===== src/Env/Items.antt =====
-- The variables that hold one text or a list of texts.

use logcenter_sdk_go.Base.{
  String, List, [], ◌∷◌, Option, none, some, trim_space, ◌==◌, ◌≡◌, inl, inr, refl, ap, ◌∙◌, All,
  Bool-cases,
}
use logcenter_sdk_go.Base.Split.{split, join, Lacks, split-join}
use logcenter_sdk_go.Base.Trim.{IsTrimmed, trim_space_twice, join-IsTrimmed}
use logcenter_sdk_go.Env.Defs.{Lookup, comma, env_string, trimmed_parts, list_of, env_list}

-- A set variable with a text that is trimmed.
env_string-set :
    (lookup : Lookup) (name value : String)
    → lookup name ≡ some value
    → IsTrimmed value
    → env_string lookup (name ∷ []) ≡ some value
unfolding env_string
env_string-set lookup name value h (fixed, n) = rw (h, env_string) (rw (fixed, n) refl)

trimmed_parts_fixed : (parts : List String) → All IsTrimmed parts → trimmed_parts parts ≡ parts
unfolding trimmed_parts
trimmed_parts_fixed [] h = refl
trimmed_parts_fixed (part ∷ parts) ((fixed, n), hs) =
    rw (fixed, n) (ap (◌∷◌ part) (trimmed_parts_fixed parts hs))

-- A variable that holds texts joined by commas is read as these texts, if there is one, none of them is
-- empty or has a comma in it, and none starts or ends with a space.
pub env_list-join :
    (lookup : Lookup) (name part : String) (parts : List String)
    → All IsTrimmed (part ∷ parts)
    → All (Lacks comma) (part ∷ parts)
    → lookup name ≡ some (join comma (part ∷ parts))
    → env_list lookup name ≡ part ∷ parts
unfolding env_list
env_list-join lookup name part parts trimmed lacks h =
    let value =
      env_string-set lookup name (join comma (part ∷ parts)) h
        (join-IsTrimmed comma part parts trimmed) in
    (ap list_of value
      ∙ ap trimmed_parts (split-join comma part parts lacks)
      ∙ trimmed_parts_fixed (part ∷ parts) trimmed)

trimmed_parts-IsTrimmed : (parts : List String) → All IsTrimmed (trimmed_parts parts)
unfolding trimmed_parts
trimmed_parts-IsTrimmed [] = tt
trimmed_parts-IsTrimmed (part ∷ parts) = elim (Bool-cases (trim_space part == "")) [
  | inl e ↦ rw e (trimmed_parts-IsTrimmed parts)
  | inr e ↦ rw e ((trim_space_twice part, e), trimmed_parts-IsTrimmed parts)
]

list_of-IsTrimmed : (o : Option String) → All IsTrimmed (list_of o)
list_of-IsTrimmed none = tt
list_of-IsTrimmed (some value) = trimmed_parts-IsTrimmed (split comma value)

-- Whatever the variable holds, no text of the list is empty or starts or ends with a space.
pub env_list-IsTrimmed : (lookup : Lookup) (name : String) → All IsTrimmed (env_list lookup name)
unfolding env_list
env_list-IsTrimmed lookup name = list_of-IsTrimmed (env_string lookup (name ∷ []))
