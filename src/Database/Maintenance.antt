-- ===== src/Database/Maintenance.antt =====
-- The repair of interrupted and stuck scans: `ResetInterruptedScans` and `ReapStuckScans` of
-- scanner-core/database/db.go. Which rows are older than the cutoff is a parameter, since
-- `updated_at` is left out.
use Prim.Native.String.{◌++◌ as str_append}
use bjorn2scan.Base.{
  String, Bool, true, false, ◌&&◌, List, [], ◌∷◌, Option, none, some, if◌then◌else◌,
}
use bjorn2scan.Database.Tables.{Engine, ImageRow, NodeRow, M, ◌>>=◌, return, write}
use bjorn2scan.Status.{Status, pending, generating_sbom, scanning_vulnerabilities, vuln_scan_failed}

-- `status IN ('generating_sbom', 'scanning_vulnerabilities')`.
abbrev pub in_transit : Status → Bool
in_transit generating_sbom = true
in_transit scanning_vulnerabilities = true
in_transit _ = false

abbrev pub node_in_transit : Option Status → Bool
node_in_transit none = false
node_in_transit (some s) = in_transit s

-- An `UPDATE` of the rows that a test holds of.
unfoldable pub update_all {ℓ} :
    {R : Type ℓ} → (String → R → Bool) → (R → R) → List (String × R) → List (String × R)
update_all p f [] = []
update_all p f ((k, r) ∷ rs) = (k, if p k r then f r else r) ∷ update_all p f rs

-- The statement that runs such an update on the images, and the one on the nodes.
unfoldable pub update_images :
    Engine → (String → ImageRow → Bool) → (ImageRow → ImageRow) → M (Option String)
unfolding update_all
update_images e p f = write e (λ db. record db { images = update_all p f db.images })

unfoldable pub update_nodes :
    Engine → (String → NodeRow → Bool) → (NodeRow → NodeRow) → M (Option String)
unfolding update_all
update_nodes e p f = write e (λ db. record db { nodes = update_all p f db.nodes })

-- The two updates, nodes first; the second one does not run where the first one fails.
unfoldable pub update_both :
    Engine
    → (String → NodeRow → Bool)
    → (NodeRow → NodeRow)
    → (String → ImageRow → Bool)
    → (ImageRow → ImageRow)
    → String
    → M (Option String)
unfolding update_nodes update_images
update_both e p f q g message = do
  r ← update_nodes e p f
  elim r [
    | some x ↦
        return (some (str_append "failed to " (str_append message (str_append " node scans: " x))))
    | none ↦ do
      i ← update_images e q g
      return (elim i [
        | some x ↦
            some (str_append "failed to " (str_append message (str_append " image scans: " x)))
        | none ↦ none
      ])
  ]

abbrev pub reset_node : NodeRow → NodeRow
reset_node r = record r { status = some pending; status_error = some "" }

abbrev pub reset_image : ImageRow → ImageRow
reset_image r = record r { status = pending }

unfoldable pub reset_interrupted_scans : Engine → M (Option String)
unfolding update_both
reset_interrupted_scans e =
    update_both e (λ k r. node_in_transit r.status) reset_node (λ k r. in_transit r.status)
      reset_image "reset interrupted"

abbrev pub reap_error : String
reap_error = "scan exceeded maximum duration and was reset by the stuck-scan reaper"

abbrev pub reap_node : NodeRow → NodeRow
reap_node r = record r { status = some vuln_scan_failed; status_error = some reap_error }

abbrev pub reap_image : ImageRow → ImageRow
reap_image r = record r { status = vuln_scan_failed; status_error = some reap_error }

-- `old_node` and `old_image`: the rows whose `updated_at` lies before the cutoff.
unfoldable pub reap_stuck_scans : (String → Bool) → (String → Bool) → Engine → M (Option String)
unfolding update_both
reap_stuck_scans old_node old_image e =
    update_both e (λ k r. node_in_transit r.status && old_node k) reap_node
      (λ k r. in_transit r.status && old_image k) reap_image "reap stuck"
