-- ===== src/Redaction/Defs.antt =====
-- Sensitive keys, and the masking of texts.
use Prim.Native.Char.{Char, code}
use Prim.Native.String.{◌++◌}
use logcenter_sdk_go.Base.{
  String, List, [], ◌∷◌, Bool, false, Option, none, some, ◌||◌, if◌then◌else◌, ◌==◌, num_eq,
  trim_space, contains, str_mem,
}
use mathlib.Core.List
use logcenter_sdk_go.Platform.{Platform, Piece, kept, matched}

abbrev pub redacted_value : String
redacted_value = "[REDACTED]"

abbrev pub default_sensitive_key_fragments : List String
default_sensitive_key_fragments =
    "password" ∷ "senha" ∷ "token" ∷ "authorization" ∷ "cookie" ∷ "secret" ∷ "secret_key"
    ∷ "client_secret" ∷ "api_key" ∷ "apikey" ∷ "private_key" ∷ "pfx" ∷ "certificate"
    ∷ "certificate_password" ∷ "certificado" ∷ "senha_certificado" ∷ "base64" ∷ "file" ∷ "arquivo"
    ∷ "document" ∷ "pdf" ∷ "xml" ∷ "logo" ∷ "stripe" ∷ "csrt" ∷ "chave_acesso" ∷ "cpf" ∷ "cnpj"
    ∷ "email" ∷ "phone" ∷ "telefone" ∷ "cvv" ∷ []

-- `pairPattern` is nil exactly when there are no fragments, and is built from them otherwise.
pub record Redactor : Type 0 where
  pub fragments : List String

module _ (platform : Platform) where
  -- `strings.ToLower`.
  unfoldable pub to_lower : String → String
  to_lower String.[] = ""
  to_lower (String.◌∷◌ c s) = String.◌∷◌ (platform.lower c) (to_lower s)

  -- The form in which fragments and keys are compared.
  abbrev pub normal : String → String
  normal s = to_lower (trim_space s)

  -- One round of `normalizeFragments`: the set `seen` holds what `normalized` lists.
  unfoldable pub add_fragment : List String → String → List String
  add_fragment normalized f =
      if normal f == "" || str_mem (normal f) normalized
      then normalized
      else List.◌++◌ normalized (normal f ∷ [])

  unfoldable pub add_fragments : List String → List String → List String
  add_fragments normalized [] = normalized
  add_fragments normalized (f ∷ fs) = add_fragments (add_fragment normalized f) fs

  unfoldable pub normalize_fragments : List String → List String
  unfolding add_fragment add_fragments
  normalize_fragments fragments = add_fragments [] fragments

  unfoldable pub new_redactor : List String → Redactor
  new_redactor extra = record {
    fragments = normalize_fragments (List.◌++◌ default_sensitive_key_fragments extra);
  }

-- The loop of `IsSensitiveKey`.
unfoldable pub any_contained : String → List String → Bool
any_contained key [] = false
any_contained key (f ∷ fs) = contains key f || any_contained key fs

-- `strings.IndexAny(match, ":=")`: the text before the separator, and the separator.
unfoldable pub split_separator : String → Option (String × Char)
split_separator String.[] = none
split_separator (String.◌∷◌ c s) =
    if num_eq (code c) b':' || num_eq (code c) b'='
    then some ("", c)
    else elim (split_separator s) [
      | none ↦ none
      | some (before, separator) ↦ some (String.◌∷◌ c before, separator)
    ]

unfoldable pub redact_match : String → String
redact_match match = elim (split_separator match) [
  | none ↦ redacted_value
  | some (key, separator) ↦ trim_space key ++ String.◌∷◌ separator "" ++ redacted_value
]

-- `ReplaceAllStringFunc`.
unfoldable pub replace_all : (String → String) → List Piece → String
replace_all f [] = ""
replace_all f (kept s ∷ ps) = s ++ replace_all f ps
replace_all f (matched s ∷ ps) = f s ++ replace_all f ps

module _ (platform : Platform) (redactor : Redactor) where
  unfoldable pub is_sensitive_key : String → Bool
  is_sensitive_key key = any_contained (normal platform key) redactor.fragments

  abbrev pub mask_bearer : String → String
  mask_bearer value = replace_all (λ _. "Bearer " ++ redacted_value) (platform.bearer value)

  abbrev pub mask_pairs : List String → String → String
  mask_pairs [] value = value
  mask_pairs (f ∷ fs) value = replace_all redact_match (platform.pairs (f ∷ fs) value)

  unfoldable pub redact_string : String → String
  redact_string value = mask_pairs redactor.fragments (mask_bearer value)
