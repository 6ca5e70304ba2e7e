-- ===== src/Base/Texts.antt =====
-- Lists of texts as sets: what a list holds, its first occurrences, and its texts that are not empty.
use Prim.Native.String.{String}
use mathlib.Core.Path.{◌≡◌, refl, ap}
use mathlib.Core.Bool.{Bool, true, false, not, ◌&&◌, ◌||◌}
use mathlib.Core.List.{List, [], ◌∷◌, ◌++◌, map}
use mathlib.Core.Option.{none, some}
use native.Mathlib.Omega.{arith}
use text.Mathlib.Text.{◌==◌ as str_eq}
use text.Mathlib.TextEquality.{eq_iff}
use bjorn2scan.Base.Tests.{if◌then◌else◌}
use bjorn2scan.Base.Lists.{All}
use bjorn2scan.Base.Maps.{get, put}

-- `m[p]` of a Go `map[string]bool` whose entries are all true, by the list of its keys.
abbrev pub holds : String → List String → Bool
holds p [] = false
holds p (x ∷ xs) = if str_eq x p then true else holds p xs

-- The list less the texts of the first one.
abbrev pub without : List String → List String → List String
without seen [] = []
without seen (x ∷ xs) = let rest = without seen xs in if holds x seen then rest else x ∷ rest

abbrev pub first_occurrences : List String → List String
first_occurrences [] = []
first_occurrences (x ∷ xs) = x ∷ without (x ∷ []) (first_occurrences xs)

abbrev pub not_empty : List String → List String
not_empty [] = []
not_empty (x ∷ xs) = let rest = not_empty xs in if str_eq x "" then rest else x ∷ rest

abbrev pub concat : List (List String) → List String
concat [] = []
concat (l ∷ ls) = l ++ concat ls

pub without-none : (xs : List String) → without [] xs ≡ xs
without-none [] = refl
without-none (x ∷ xs) = ap (◌∷◌ x) (without-none xs)

pub without-more :
    (x : String) (seen xs : List String)
    → without (x ∷ seen) xs ≡ without seen (without (x ∷ []) xs)
without-more x seen [] = refl
without-more x seen (y ∷ ys) = ground (arith, without-more x seen ys)

pub without-seen :
    (x : String) (seen xs : List String)
    → holds x seen ≡ true
    → without seen (without (x ∷ []) xs) ≡ without seen xs
without-seen x seen [] h = refl
without-seen x seen (y ∷ ys) h = ground (arith, eq_iff x y, without-seen x seen ys h)

abbrev pub Distinct : List String → Type 0
Distinct [] = Unit {0}
Distinct (x ∷ xs) = (holds x xs ≡ false) × Distinct xs

pub holds-without :
    (p : String) (seen xs : List String)
    → holds p (without seen xs) ≡ (not (holds p seen) && holds p xs)
holds-without p seen [] = ground arith
holds-without p seen (x ∷ xs) = ground (arith, eq_iff x p, holds-without p seen xs)

pub without-Distinct : (seen xs : List String) → Distinct xs → Distinct (without seen xs)
without-Distinct seen [] d = tt
without-Distinct seen (x ∷ xs) d =
    ground (arith, holds-without x seen xs, without-Distinct seen xs d.1)

pub first_occurrences-Distinct : (xs : List String) → Distinct (first_occurrences xs)
first_occurrences-Distinct [] = tt
first_occurrences-Distinct (x ∷ xs) = (
  ground (arith, eq_iff x x, holds-without x (x ∷ []) (first_occurrences xs)),
  without-Distinct (x ∷ []) (first_occurrences xs) (first_occurrences-Distinct xs),
)

pub holds-first_occurrences :
    (p : String) (xs : List String) → holds p (first_occurrences xs) ≡ holds p xs
holds-first_occurrences p [] = refl
holds-first_occurrences p (x ∷ xs) = ground (
  arith,
  eq_iff x p,
  holds-without p (x ∷ []) (first_occurrences xs),
  holds-first_occurrences p xs,
)

pub holds-not_empty :
    (p : String) (xs : List String) → holds p (not_empty xs) ≡ (not (str_eq p "") && holds p xs)
holds-not_empty p [] = ground arith
holds-not_empty p (x ∷ xs) =
    ground (arith, eq_iff x p, eq_iff x "", eq_iff p "", holds-not_empty p xs)

pub holds-append :
    (p : String) (xs ys : List String) → holds p (xs ++ ys) ≡ (holds p xs || holds p ys)
holds-append p [] ys = ground arith
holds-append p (x ∷ xs) ys = ground (arith, holds-append p xs ys)

pub All-of_holds {ℓ} :
    {P : String → Type ℓ} (ds : List String) → ((d : String) → holds d ds ≡ true → P d) → All P ds
All-of_holds [] h = tt
All-of_holds (x ∷ xs) h =
    (h x (ground (arith, eq_iff x x)), All-of_holds xs (λ d k. h d (ground (arith, k))))

-- The keys of a map.
abbrev pub keys {ℓ} : {V : Type ℓ} → List (String × V) → List String
keys m = map (λ e. e.0) m

pub holds-keys {ℓ} :
    {V : Type ℓ} (d : String) (m : List (String × V)) → get d m ≡ none → holds d (keys m) ≡ false
holds-keys d [] e = refl
holds-keys d ((k, v) ∷ m) e = ground (arith, eq_iff k d, holds-keys d m)

pub get-holds {ℓ} :
    {V : Type ℓ} (d : String) (m : List (String × V)) (v : V)
    → get d m ≡ some v
    → holds d (keys m) ≡ true
get-holds d [] v e = cc
get-holds d ((k, w) ∷ m) v e = ground (arith, eq_iff k d, get-holds d m v)

pub keys-put {ℓ} :
    {V : Type ℓ} (d : String) (v : V) (m : List (String × V))
    → get d m ≡ none
    → keys (put d v m) ≡ keys m ++ d ∷ []
keys-put d v [] e = refl
keys-put d v ((k, w) ∷ m) e = ground (arith, eq_iff k d, keys-put d v m)

-- A map with an entry for each key.
abbrev pub entries : {V : Type 0} → (String → V) → List String → List (String × V)
entries g ks = map {B = String × _} (λ k. (k, g k)) ks

pub map_entries :
    {V : Type 0} (g h : String → V)
    → ((k : String) → g k ≡ h k)
    → (ks : List String) → entries g ks ≡ entries h ks
map_entries g h e [] = refl
map_entries g h e (k ∷ ks) = ground (arith, e k, map_entries g h e ks)
