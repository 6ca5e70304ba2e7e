-- ===== src/Containers/Digests.antt =====
-- The map from digests to containers of the catch-up in scanner-core/containers/manager.go.
use bjorn2scan.Base.{
  keys, holds-keys, get-holds, keys-put, ◌≡◌, refl, sym, String, true, List, [], ◌∷◌, ◌++◌, map,
  some, str_eq, arith, inl, inr, Bool-cases, append-nil, Option-cases, append_assoc, holds, without,
  first_occurrences, not_empty, Distinct, without-Distinct, first_occurrences-Distinct, subst,
  without-seen, eq_iff, holds-append,
}
use bjorn2scan.Base.Maps.{get, put, get-put}
use bjorn2scan.Container.{Container}
use bjorn2scan.Containers.CatchUp.{add_digest, digest_to_container, no_container}
use bjorn2scan.Containers.Requests.{digest_of}

-- A map that gives each key a container of its digest.
abbrev pub Keyed : List (String × Container) → Type 0
Keyed m = (d : String) (c : Container) → get d m ≡ some c → c.image.digest ≡ d

pub get-keys :
    (d : String) (m : List (String × Container))
    → holds d (keys m) ≡ true
    → (c : Container) × (get d m ≡ some c)
get-keys d m h = elim (Option-cases (get d m)) [
  | inl e ↦ (no_container, ground (arith, h, holds-keys d m e))
  | inr (c, e) ↦ (c, e)
]

without-snoc :
    (x : String) (seen xs : List String)
    → without (seen ++ x ∷ []) xs ≡ without seen (without (x ∷ []) xs)
without-snoc x seen [] = refl
without-snoc x seen (y ∷ ys) = ground (arith, without-snoc x seen ys, holds-append y seen (x ∷ []))

add_digest-Keyed :
    (m : List (String × Container)) (c : Container) → Keyed m → Keyed (add_digest m c)
add_digest-Keyed m c h d e g = elim (Bool-cases (str_eq c.image.digest "")) [
  | inl z ↦ h d e (ground arith)
  | inr z ↦ elim (Option-cases (get c.image.digest m)) [
    | inr (o, f) ↦ h d e (ground arith)
    | inl f ↦ ground (arith, eq_iff c.image.digest d, get-put c.image.digest d c m, h d e)
  ]
]

pub digest_to_container-Keyed :
    (m cs : List (String × Container)) → Keyed m → Keyed (digest_to_container m cs)
unfolding digest_to_container
digest_to_container-Keyed m [] h = h
digest_to_container-Keyed m ((k, c) ∷ cs) h =
    digest_to_container-Keyed (add_digest m c) cs (add_digest-Keyed m c h)

pub digest_to_container-keys :
    (m cs : List (String × Container))
    → keys (digest_to_container m cs)
      ≡ keys m ++ without (keys m) (first_occurrences (not_empty (map (λ e. digest_of e.1) cs)))
unfolding digest_to_container
digest_to_container-keys m [] = sym (append-nil (keys m))
digest_to_container-keys m ((k, c) ∷ cs) =
    let rest = first_occurrences (not_empty (map (λ e. digest_of e.1) cs)) in
    elim (Bool-cases (str_eq c.image.digest "")) [
      | inl z ↦ ground (arith, digest_to_container-keys m cs)
      | inr z ↦ elim (Option-cases (get c.image.digest m)) [
        | inr (o, f) ↦ ground (
          arith,
          digest_to_container-keys m cs,
          get-holds c.image.digest m o f,
          without-seen c.image.digest (keys m) rest,
        )
        | inl f ↦ ground (
          arith,
          digest_to_container-keys (put c.image.digest c m) cs,
          holds-keys c.image.digest m f,
          keys-put c.image.digest c m f,
          without-snoc c.image.digest (keys m) rest,
          append_assoc (keys m) (c.image.digest ∷ [])
              (without (keys m ++ c.image.digest ∷ []) rest),
        )
      ]
    ]

pub digest_to_container-Distinct :
    (cs : List (String × Container)) → Distinct (keys (digest_to_container [] cs))
digest_to_container-Distinct cs =
    let ds = first_occurrences (not_empty (map (λ e. digest_of e.1) cs)) in
    subst Distinct (sym (digest_to_container-keys [] cs)) (
      without-Distinct [] ds (first_occurrences-Distinct (not_empty (map (λ e. digest_of e.1) cs))))
