-- ===== src/Jobs/Needing.antt =====
-- Which images the rescan of scanner-core/jobs/rescan_database_job.go needs, and the requests for them.
use bjorn2scan.Base.{
  suc, ◌≡◌, refl, sym, ap, subst, ◌∙◌, String, Bool, true, false, ◌&&◌, ◌||◌, List, [], ◌∷◌, map,
  some, ok, str_eq, eq_iff, arith, if◌then◌else◌, holds, holds-append, Bool-cases, inl, inr, keys,
  Distinct, All,
}
use bjorn2scan.Base.Maps.{get}
use bjorn2scan.Database.Tables.{Engine, ImageRow, ContainerRow, Db, return, go_with}
use bjorn2scan.Database.Success.{query-quiet}
use bjorn2scan.Database.Blobs.{has_blob}
use bjorn2scan.Database.Rows.{IsQuiet}
use bjorn2scan.Database.Maintenance.{update_all, reap_image}
use bjorn2scan.Database.Reconcile.{has_container}
use bjorn2scan.Scanning.Queue.{ScanJob}
use bjorn2scan.Jobs.Rescan.{
  is_stale, needs_rescan, needing, reverse, first_container, found_container,
  get_first_container_for_image, force_scan_of, force_scans,
}

-- The images of the requests.
abbrev pub digests : List ScanJob → List String
digests js = map (λ j. j.image.digest) js

pub keys-update_all :
    (p : String → ImageRow → Bool) (f : ImageRow → ImageRow) (rs : List (String × ImageRow))
    → keys (update_all p f rs) ≡ keys rs
unfolding update_all
keys-update_all p f [] = refl
keys-update_all p f ((k, r) ∷ rs) = ap (λ l. k ∷ l) (keys-update_all p f rs)

pub holds-reverse : (d : String) (ds : List String) → holds d (reverse ds) ≡ holds d ds
unfolding reverse
holds-reverse d [] = refl
holds-reverse d (x ∷ ds) =
    ground (arith, holds-append d (reverse ds) (x ∷ []), holds-reverse d ds, eq_iff x d)

needing-none :
    (current d : String) (ks : List ContainerRow) (rs : List (String × ImageRow))
    → holds d (keys rs) ≡ false
    → holds d (needing current ks rs) ≡ false
unfolding needing
needing-none current d ks [] h = refl
needing-none current d ks ((k, r) ∷ rs) h = ground (arith, needing-none current d ks rs)

holds-if :
    (b : Bool) (d k : String) (ds : List String)
    → holds d (if b then k ∷ ds else ds) ≡ ((b && str_eq k d) || holds d ds)
holds-if true d k ds = ground (arith, eq_iff k d)
holds-if false d k ds = refl

test :
    (b : Bool) (d : String) (ds : List String)
    → holds d ds ≡ false
    → ((b && str_eq d d) || holds d ds) ≡ b
test true d ds h = ground (arith, eq_iff d d)
test false d ds h = h

skip : (b c h : Bool) → c ≡ false → ((b && c) || h) ≡ h
skip true c h e = ground (arith, e)
skip false c h e = refl

-- The head of the table.
needing-first :
    (current d : String) (ks : List ContainerRow) (q : ImageRow) (rs : List (String × ImageRow))
    → holds d (needing current ks rs) ≡ false
    → holds d (needing current ks ((d, q) ∷ rs)) ≡ (has_container d ks && needs_rescan current q)
unfolding needing
needing-first current d ks q rs h =
    holds-if (has_container d ks && needs_rescan current q) d d (needing current ks rs)
    ∙ test (has_container d ks && needs_rescan current q) d (needing current ks rs) h

needing-later :
    (current d k : String) (ks : List ContainerRow) (q : ImageRow) (rs : List (String × ImageRow))
    → str_eq k d ≡ false
    → holds d (needing current ks ((k, q) ∷ rs)) ≡ holds d (needing current ks rs)
unfolding needing
needing-later current d k ks q rs h =
    holds-if (has_container k ks && needs_rescan current q) d k (needing current ks rs)
    ∙ skip (has_container k ks && needs_rescan current q) (str_eq k d)
        (holds d (needing current ks rs)) h

at_head :
    (current d k : String) (ks : List ContainerRow) (q : ImageRow) (rs : List (String × ImageRow))
    (r : ImageRow)
    → holds k (keys rs) ≡ false
    → k ≡ d
    → q ≡ r
    → holds d (needing current ks ((k, q) ∷ rs)) ≡ (has_container d ks && needs_rescan current r)
at_head current d k ks q rs r u e f =
    subst
      (λ x.
        holds d (needing current ks ((x, q) ∷ rs)) ≡ (has_container d ks && needs_rescan current r))
      (sym e)
      (needing-first current d ks q rs
          (needing-none current d ks rs (subst (λ x. holds x (keys rs) ≡ false) e u))
        ∙ ap (λ x. has_container d ks && needs_rescan current x) f)

pub needing-holds :
    (current d : String) (ks : List ContainerRow) (rs : List (String × ImageRow)) (r : ImageRow)
    → Distinct (keys rs)
    → get d rs ≡ some r
    → holds d (needing current ks rs) ≡ (has_container d ks && needs_rescan current r)
needing-holds current d ks [] r u h = ground (arith, h)
needing-holds current d ks ((k, q) ∷ rs) r u h = elim (Bool-cases (str_eq k d)) [
  | inl e ↦ at_head current d k ks q rs r u.0 ((eq_iff k d).0 e) (ground (arith, h, e))
  | inr e ↦
      needing-later current d k ks q rs e
      ∙ needing-holds current d ks rs r u.1 (ground (arith, h, e))
]

pub needing-has_container :
    (current : String) (ks : List ContainerRow) (rs : List (String × ImageRow))
    → All (λ d. has_container d ks ≡ true) (needing current ks rs)
unfolding needing
needing-has_container current ks [] = tt
needing-has_container current ks ((d, r) ∷ rs) = ground (arith, needing-has_container current ks rs)

first_container-some :
    (d : String) (ks : List ContainerRow)
    → has_container d ks ≡ true
    → (k : ContainerRow) × (first_container d ks ≡ some k)
unfolding has_container first_container
first_container-some d [] h = ground (arith, h)
first_container-some d (k ∷ ks) h = elim (Bool-cases (str_eq k.image d)) [
  | inl e ↦ (k, ground arith)
  | inr e ↦ let (k', found) = first_container-some d ks (ground (arith, h)) in (k', ground arith)
]

get_first_container_quiet :
    (e : Engine) (d : String) (db : Db) (k : ContainerRow)
    → IsQuiet e
    → first_container d db.containers ≡ some k
    → get_first_container_for_image e d db ≡ (ok k, record db { statements = suc db.statements })
unfolding get_first_container_for_image
get_first_container_quiet e d db k quiet h =
    ap (λ p. go_with "failed to get first container: " (λ o. return (found_container o)) p.0 p.1)
      (query-quiet e quiet (λ db. first_container d db.containers) db)
    ∙ ap (λ o. (found_container o, record db { statements = suc db.statements })) h

pub force_scans-digests :
    (e : Engine) (ds : List String) (db : Db)
    → IsQuiet e
    → All (λ d. has_container d db.containers ≡ true) ds
    → digests (force_scans e ds db).0 ≡ ds
unfolding force_scans
force_scans-digests e [] db quiet a = refl
force_scans-digests e (d ∷ ds) db quiet a =
    let (k, found) = first_container-some d db.containers a.0 in
    ap (λ p. digests (force_scan_of d p.0 (force_scans e ds p.1).0))
      (get_first_container_quiet e d db k quiet found)
    ∙ ap (λ l. d ∷ l)
        (force_scans-digests e ds (record db { statements = suc db.statements }) quiet a.1)

pub needs_rescan-reap_image :
    (current : String) (r : ImageRow)
    → needs_rescan current (reap_image r)
      ≡ (has_blob r.sbom_compressed r.sbom && is_stale current r.grype_db_built)
unfolding needs_rescan
needs_rescan-reap_image current r = refl
