-- ===== src/Exclusions/Patterns.antt =====
-- `BuildExclusions` of sbom-generator-shared/exclusions/exclusions.go.
use bjorn2scan.Base.{String, Bool, true, false, List, [], ◌∷◌, Option, none, some, Result, ok, err}
use bjorn2scan.Exclusions.Merge.{merge_exclusions}
use bjorn2scan.Exclusions.Mounts.{Files, generate_network_exclusions, get_proc_mounts_path}

abbrev pub default_host_exclusions : List String
default_host_exclusions =
    "**/snapshots/**" ∷ "**/rootfs/**" ∷ "**/overlay2/**" ∷ "**/var/lib/kubelet/pods/**"
    ∷ "**/var/lib/containerd/**" ∷ "**/var/lib/docker/**" ∷ "**/var/lib/rancher/**"
    ∷ "**/opt/cni/bin/**" ∷ "**/proc/**" ∷ "**/sys/**" ∷ "**/dev/**" ∷ "**/run/**" ∷ "**/tmp/**"
    ∷ "**/mnt/**" ∷ "**/media/**" ∷ "**/srv/**" ∷ []

pub record HostExclusionConfig : Type 0 where
  pub extra_exclusions : List String
  pub auto_detect_nfs : Bool
  pub extra_network_fs_types : List String
  pub host_prefix : String

-- The patterns of the network mounts, or the error; none where they are not asked for.
abbrev pub network_patterns : Files → HostExclusionConfig → Result (List String)
network_patterns files c =
    generate_network_exclusions files (get_proc_mounts_path c.host_prefix)
      (some (record { extra_network_types = c.extra_network_fs_types }))

-- The patterns, and the error to be logged if there is one.
unfoldable pub build_exclusions : Files → HostExclusionConfig → List String × Option String
unfolding merge_exclusions generate_network_exclusions get_proc_mounts_path
build_exclusions files c = elim c.auto_detect_nfs [
  | false ↦ (merge_exclusions (default_host_exclusions ∷ c.extra_exclusions ∷ []), none)
  | true ↦ elim (network_patterns files c) [
    | err x ↦ (merge_exclusions (default_host_exclusions ∷ c.extra_exclusions ∷ []), some x)
    | ok ps ↦ (
      merge_exclusions
          (merge_exclusions (default_host_exclusions ∷ ps ∷ []) ∷ c.extra_exclusions ∷ []),
      none,
    )
  ]
]
