-- ===== src/Exclusions/Paths.antt =====
-- The functions of Go's `strings` and `path/filepath` that sbom-generator-shared/exclusions uses, on
-- the characters of a text.
use Prim.Native.Char.{code}
use Prim.Native.String.{◌++◌ as str_append}
use bjorn2scan.Base.{
  ℕ, String, Bool, true, false, ◌||◌, ◌&&◌, List, [], ◌∷◌, str_eq, leb, ◌==◌, if◌then◌else◌,
}

-- `unicode.IsSpace`.
abbrev pub is_space : ℕ → Bool
is_space c =
    (leb 9 c && leb c 13)
    || c == 32
    || c == 133
    || c == 160
    || c == 5760
    || (leb 8192 c && leb c 8202)
    || c == 8232
    || c == 8233
    || c == 8239
    || c == 8287
    || c == 12288

abbrev pub add_word : String → List String → List String
add_word w ws = if str_eq w "" then ws else w ∷ ws

-- `strings.Fields`, with the characters of the current word before the rest.
abbrev pub fields_from : String → String → List String
fields_from w String.[] = add_word w []
fields_from w (String.◌∷◌ c s) = elim (is_space (code c)) [
  | true ↦ add_word w (fields_from "" s)
  | false ↦ fields_from (str_append w (String.◌∷◌ c String.[])) s
]

abbrev pub fields : String → List String
fields s = fields_from "" s

-- `strings.TrimPrefix(s, "/")`.
abbrev pub trim_slash : String → String
trim_slash String.[] = String.[]
trim_slash (String.◌∷◌ c s) = if code c == 47 then s else String.◌∷◌ c s

-- The parts of a path between its slashes.
abbrev pub split_from : String → String → List String
split_from w String.[] = w ∷ []
split_from w (String.◌∷◌ c s) = elim (code c == 47) [
  | true ↦ w ∷ split_from "" s
  | false ↦ split_from (str_append w (String.◌∷◌ c String.[])) s
]

abbrev pub is_rooted : String → Bool
is_rooted String.[] = false
is_rooted (String.◌∷◌ c s) = code c == 47

-- A `..` takes the last part away, if that is a name; at the root it goes nowhere.
abbrev pub up : Bool → List String → List String
up rooted [] = if rooted then [] else ".." ∷ []
up rooted (p ∷ ps) = if str_eq p ".." then ".." ∷ p ∷ ps else ps

-- The parts that `filepath.Clean` keeps, last part first.
abbrev pub clean_part : Bool → List String → String → List String
clean_part rooted done p =
    if str_eq p "" || str_eq p "." then done else if str_eq p ".." then up rooted done else p ∷ done

abbrev pub clean_parts : Bool → List String → List String → List String
clean_parts rooted done [] = done
clean_parts rooted done (p ∷ ps) = clean_parts rooted (clean_part rooted done p) ps

abbrev pub join_back : String → List String → String
join_back s [] = s
join_back s (p ∷ ps) = join_back (if str_eq s "" then p else str_append p (str_append "/" s)) ps

unfoldable pub clean : String → String
clean s =
    let body = join_back "" (clean_parts (is_rooted s) [] (split_from "" s)) in
    if is_rooted s then str_append "/" body else if str_eq body "" then "." else body
