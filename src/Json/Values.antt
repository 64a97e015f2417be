-- ===== src/Json/Values.antt =====
-- Values of type `any`. A number that is no integer, or a value of a type that the code does not look
-- into, is an `other`, which carries its own text.
use Prim.Native.Nat.{Ordering}
use Prim.Native.Char.{Char, code}
use Prim.Native.String
use Prim.Native.String.{compare, slice}
use logcenter_sdk_go.Base.{
  ℕ, ◌+◌, ◌/◌, ◌%◌, ◌≡◌, refl, String, List, [], ◌∷◌, Option, none, some, ltb, num_eq, ◌||◌,
  if◌then◌else◌, decimal_ℤ, pos,
}
use logcenter_sdk_go.Types.{
  Value, null, str, bool, int, map, fields, arr, strs, changes, other, Entries, end, entry, Items,
  nil, cons, Changes, done, change,
}

infixr 65 ◌++◌
abbrev ◌++◌ : String → String → String
s ++ t = String.◌++◌ s t

infixl 5 ◌>>=◌
abbrev pub ◌>>=◌ {ℓ κ} : {A : Type ℓ} {B : Type κ} → Option A → (A → Option B) → Option B
none >>= k = none
some a >>= k = k a

abbrev hex_digit : ℕ → String
hex_digit n = slice "0123456789abcdef" n (n + 1)

-- One character of a string, with the escapes for HTML that `Marshal` writes.
escape : Char → String
escape c =
    let n = code c in
    if num_eq n 0x22
    then "\\\""
    else if num_eq n 0x5c
    then "\\\\"
    else if num_eq n 8
    then "\\b"
    else if num_eq n 12
    then "\\f"
    else if num_eq n 10
    then "\\n"
    else if num_eq n 13
    then "\\r"
    else if num_eq n 9
    then "\\t"
    else if ltb n 0x20 || num_eq n 0x3c || num_eq n 0x3e || num_eq n 0x26
    then "\\u00" ++ hex_digit (n / 16) ++ hex_digit (n % 16)
    else if num_eq n 0x2028
    then "\\u2028"
    else if num_eq n 0x2029
    then "\\u2029"
    else String.◌∷◌ c ""

escaped : String → String
escaped String.[] = ""
escaped (String.◌∷◌ c s) = escape c ++ escaped s

unfoldable pub json_string : String → String
unfolding escape escaped
json_string s = "\"" ++ escaped s ++ "\""

abbrev comma_joined : List String → String
comma_joined [] = ""
comma_joined (x ∷ []) = x
comma_joined (x ∷ y ∷ ys) = x ++ "," ++ comma_joined (y ∷ ys)

-- `Marshal` writes the entries of a map in the order of their keys.
insert_sorted : String × String → List (String × String) → List (String × String)
insert_sorted e [] = e ∷ []
insert_sorted (k, v) ((j, w) ∷ es) = elim (compare k j) [
  | Ordering.gt ↦ (j, w) ∷ insert_sorted (k, v) es
  | _ ↦ (k, v) ∷ (j, w) ∷ es
]

sorted : List (String × String) → List (String × String)
sorted [] = []
sorted (e ∷ es) = insert_sorted e (sorted es)

abbrev members : List (String × String) → List String
members [] = []
members ((k, v) ∷ es) = (json_string k ++ ":" ++ v) ∷ members es

unfoldable pub object : List (String × String) → String
object es = "{" ++ comma_joined (members es) ++ "}"

unfoldable pub array : List String → String
array xs = "[" ++ comma_joined xs ++ "]"

abbrev json_strings : List String → List String
json_strings [] = []
json_strings (s ∷ ss) = json_string s ∷ json_strings ss

unfoldable mutual
  unfolding json_string insert_sorted sorted object array decimal_ℤ

  pub marshal : Value → Option String
  marshal null = some "null"
  marshal (str s) = some (json_string s)
  marshal (bool b) = some (if b then "true" else "false")
  marshal (int z) = some (decimal_ℤ z)
  marshal (map es) = do some (object (sorted (← marshal_entries es)))
  marshal (fields es) = do some (object (sorted (← marshal_entries es)))
  marshal (arr xs) = do some (array (← marshal_items xs))
  marshal (strs ss) = some (array (json_strings ss))
  marshal (changes cs) = do some (array (← marshal_changes cs))
  marshal (other m) = m

  pub marshal_entries : Entries → Option (List (String × String))
  marshal_entries end = some []
  marshal_entries (entry k v es) = do
    text ← marshal v
    rest ← marshal_entries es
    some ((k, text) ∷ rest)

  pub marshal_items : Items → Option (List String)
  marshal_items nil = some []
  marshal_items (cons v vs) = do text ← marshal v; rest ← marshal_items vs; some (text ∷ rest)

  pub marshal_changes : Changes → Option (List String)
  marshal_changes done = some []
  marshal_changes (change f old new cs) = do
    before ← marshal old
    after ← marshal new
    rest ← marshal_changes cs
    some (
        object (("field", json_string f) ∷ ("old_value", before) ∷ ("new_value", after) ∷ [])
        ∷ rest)

runs :
    marshal
      (fields (entry "b" (int (pos 7)) (entry "a" (arr (cons (str "x<\n") (cons null nil))) end)))
    ≡ some "{\"a\":[\"x\\u003c\\n\",null],\"b\":7}"
unfolding marshal
runs = refl
