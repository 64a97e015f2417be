-- ===== src/Env/Failing.antt =====
-- Which variable makes the reading of the environment fail.
use logcenter_sdk_go.Base.{
  ℤ, pos, String, List, [], ◌∷◌, Bool, true, false, Option, none, some, inl, inr, if◌then◌else◌,
  ◌||◌, trim_space, str_mem, ◌≡◌, refl, ap, ◌∙◌, Bool-cases,
}
use logcenter_sdk_go.Platform.{Platform}
use logcenter_sdk_go.Redaction.{to_lower}
use logcenter_sdk_go.Env.Defs.{
  Lookup, EnvError, not_boolean, not_integer, not_duration, Result, ◌>>=◌, env_string, atoi,
  env_int, true_words, false_words, env_duration, parse_env_bool, env_enabled, config_from_lookup,
}

-- The variables that are not taken as they are, in the order in which they are read.
pub data Kind : Type 0 where
  boolean integer duration : Kind

abbrev pub variables : List (String × Kind)
variables =
    ("LOGCENTER_ENABLED", boolean)
    ∷ ("LOGCENTER_TAMPER_EVIDENCE_ENABLED", boolean)
    ∷ ("LOGCENTER_TIMEOUT", duration)
    ∷ ("LOGCENTER_SEND_TIMEOUT", duration)
    ∷ ("LOGCENTER_FLUSH_TIMEOUT", duration)
    ∷ ("LOGCENTER_CLOSE_TIMEOUT", duration)
    ∷ ("LOGCENTER_BUFFER_SIZE", integer)
    ∷ ("LOGCENTER_BATCH_SIZE", integer)
    ∷ ("LOGCENTER_FLUSH_INTERVAL", duration)
    ∷ ("LOGCENTER_RETRY_ATTEMPTS", integer)
    ∷ ("LOGCENTER_MAX_STRING_BYTES", integer)
    ∷ ("LOGCENTER_MAX_METADATA_BYTES", integer)
    ∷ ("LOGCENTER_MAX_DATA_BYTES", integer)
    ∷ ("LOGCENTER_MAX_AUDIT_VALUE_BYTES", integer)
    ∷ ("LOGCENTER_MAX_EVENT_BYTES", integer)
    ∷ ("LOGCENTER_MAX_BATCH_BYTES", integer)
    ∷ []

abbrev pub error_of : {A : Type 0} → Result A → Option EnvError
error_of (inl err) = some err
error_of (inr a) = none

abbrev is_some : {A : Type 0} → Option A → Bool
is_some none = false
is_some (some a) = true

abbrev first_of : Option EnvError → Option EnvError → Option EnvError
first_of none next = next
first_of (some err) next = some err

read :
    {A B : Type 0} (m : Result A) (f : A → Result B) {first next : Option EnvError}
    → error_of m ≡ first
    → ((a : A) → error_of (f a) ≡ next)
    → error_of (m >>= f) ≡ first_of first next
read (inl err) f {next = next} e h = ap (λ o. first_of o next) e
read (inr a) f {next = next} e h = h a ∙ ap (λ o. first_of o next) e

abbrev pub error_named : Kind → String → EnvError
error_named boolean name = not_boolean name
error_named integer name = not_integer name
error_named duration name = not_duration name

module _ (platform : Platform) (parse_duration : String → Option ℤ) where
  -- The texts of each kind.
  abbrev pub parses : Kind → String → Bool
  parses boolean value =
      let word = to_lower platform (trim_space value) in
      str_mem word true_words || str_mem word false_words
  parses integer value = is_some (atoi value)
  parses duration value = is_some (parse_duration value)

  -- The error of the text of a variable, if it is set.
  abbrev pub text_error : Kind → String → Option String → Option EnvError
  text_error kind name none = none
  text_error kind name (some value) =
      if parses kind value then none else some (error_named kind name)

  module _ (lookup : Lookup) where
    -- The error of a variable: it is set, and its text is not of its kind.
    abbrev pub variable_error : String × Kind → Option EnvError
    variable_error (name, kind) = text_error kind name (env_string lookup (name ∷ []))

    abbrev pub first_error : List (String × Kind) → Option EnvError
    first_error [] = none
    first_error (variable ∷ variables) = first_of (variable_error variable) (first_error variables)

    env_int-error :
        (name : String) → error_of (env_int lookup name) ≡ variable_error (name, integer)
    unfolding env_int
    env_int-error name = at (env_string lookup (name ∷ []))
      where
        parsed :
            (n : Option ℤ)
            → error_of {A = ℤ} (elim n [ none ↦ inl (not_integer name) | some n ↦ inr n ])
              ≡ (if is_some n then none else some (not_integer name))
        parsed none = refl
        parsed (some n) = refl

        at :
            (o : Option String)
            → error_of {A = ℤ} (elim o [
              | none ↦ inr (pos 0)
              | some value ↦ elim (atoi value) [ none ↦ inl (not_integer name) | some n ↦ inr n ]
            ])
              ≡ text_error integer name o
        at none = refl
        at (some value) = parsed (atoi value)

    env_duration-error :
        (name : String)
        → error_of (env_duration platform parse_duration lookup name)
          ≡ variable_error (name, duration)
    unfolding env_duration
    env_duration-error name = at (env_string lookup (name ∷ []))
      where
        parsed :
            (n : Option ℤ)
            → error_of {A = ℤ} (elim n [ none ↦ inl (not_duration name) | some n ↦ inr n ])
              ≡ (if is_some n then none else some (not_duration name))
        parsed none = refl
        parsed (some n) = refl

        at :
            (o : Option String)
            → error_of {A = ℤ} (elim o [
              | none ↦ inr (pos 0)
              | some value ↦ elim (parse_duration value) [
                | none ↦ inl (not_duration name)
                | some n ↦ inr n
              ]
            ])
              ≡ text_error duration name o
        at none = refl
        at (some value) = parsed (parse_duration value)

    parse_env_bool-error :
        (name value : String)
        → error_of (parse_env_bool platform parse_duration lookup name value >>= λ b. inr (some b))
          ≡ (if parses boolean value then none else some (not_boolean name))
    unfolding parse_env_bool
    parse_env_bool-error name value =
        let word = to_lower platform (trim_space value) in
        elim (Bool-cases (str_mem word true_words)) [
          | inl h ↦ rw h refl
          | inr h ↦ rw h (elim (Bool-cases (str_mem word false_words)) [
            | inl k ↦ rw k refl
            | inr k ↦ rw k refl
          ])
        ]

    env_enabled-error :
        (name : String)
        → error_of (env_enabled platform parse_duration lookup name)
          ≡ variable_error (name, boolean)
    unfolding env_enabled
    env_enabled-error name = at (env_string lookup (name ∷ []))
      where
        at :
            (o : Option String)
            → error_of {A = Option Bool} (elim o [
              | none ↦ inr none
              | some value ↦
                  (parse_env_bool platform parse_duration lookup name value >>= λ b. inr (some b))
            ])
              ≡ text_error boolean name o
        at none = refl
        at (some value) = parse_env_bool-error name value

    -- Reading the environment fails just if a variable is set to a text that is not of its kind, with
    -- the error of the first such variable in the order of the list.
    pub config_from_lookup-first_error :
        error_of (config_from_lookup platform parse_duration lookup) ≡ first_error variables
    unfolding config_from_lookup
    config_from_lookup-first_error = read _ _ (env_enabled-error _) (λ _.
        read _ _ (env_enabled-error _) (λ _. read _ _ (env_duration-error _) (λ _.
          read _ _ (env_duration-error _) (λ _. read _ _ (env_duration-error _) (λ _.
            read _ _ (env_duration-error _) (λ _. read _ _ (env_int-error _) (λ _.
              read _ _ (env_int-error _) (λ _. read _ _ (env_duration-error _) (λ _.
                read _ _ (env_int-error _) (λ _. read _ _ (env_int-error _) (λ _.
                  read _ _ (env_int-error _) (λ _. read _ _ (env_int-error _) (λ _.
                    read _ _ (env_int-error _) (λ _.
                      read _ _ (env_int-error _)
                        (λ _. read _ _ (env_int-error _) (λ _. refl))))))))))))))))
