-- ===== src/Examples/Exclusions.antt =====
-- Exclusions on small inputs.
use bjorn2scan.Base.{
  ◌≡◌, refl, true, [], ◌∷◌, ok, err, str_eq, eq_iff, if◌then◌else◌, arith, Memᴰ, holds, Distinct,
  first_occurrences, not_empty,
}
use bjorn2scan.Exclusions.Paths.{fields, clean}
use bjorn2scan.Exclusions.Merge.{merge_exclusions}
use bjorn2scan.Exclusions.Mounts.{Files, MountInfo, mounts_of, get_proc_mounts_path}
use bjorn2scan.Exclusions.Order.{merge_exclusions-first_occurrences}
use bjorn2scan.Exclusions.Contents.{build_exclusions-keeps}
use bjorn2scan.Exclusions.Network.{build_exclusions-covers}
use bjorn2scan.Exclusions.Patterns.{HostExclusionConfig, build_exclusions}

merged : merge_exclusions (("a" ∷ "" ∷ "b" ∷ []) ∷ ("b" ∷ "c" ∷ []) ∷ []) ≡ "a" ∷ "b" ∷ "c" ∷ []
unfolding merge_exclusions
merged = refl

merge_exclusions-first_occurrences_example :
    merge_exclusions (("a" ∷ []) ∷ ("a" ∷ "" ∷ []) ∷ [])
    ≡ first_occurrences (not_empty ("a" ∷ "a" ∷ "" ∷ []))
merge_exclusions-first_occurrences_example =
    merge_exclusions-first_occurrences (("a" ∷ []) ∷ ("a" ∷ "" ∷ []) ∷ [])

two_fields : fields " nfs:/x  /data\tnfs4" ≡ "nfs:/x" ∷ "/data" ∷ "nfs4" ∷ []
two_fields = refl

cleaned : clean "/host/./a/..//proc/mounts" ≡ "/host/proc/mounts"
unfolding clean
cleaned = refl

abbrev lines : Files
lines path =
    if str_eq path "/host/proc/mounts"
    then ok ("nas:/x /data nfs4 rw 0 0" ∷ "short" ∷ [])
    else err "no such file"

abbrev host : HostExclusionConfig
host = record {
  extra_exclusions = "**/scratch/**" ∷ [];
  auto_detect_nfs = true;
  extra_network_fs_types = "ceph" ∷ [];
  host_prefix = "/host";
}

abbrev data_mount : MountInfo
data_mount = record { device = "nas:/x"; mount_point = "/data"; fs_type = "nfs4"; options = "rw" }

build_exclusions-keeps_example :
    Distinct (build_exclusions lines host).0
    × (holds "**/scratch/**" (build_exclusions lines host).0 ≡ true)
build_exclusions-keeps_example =
    build_exclusions-keeps lines host "**/scratch/**"
      (λ e. ground (arith, eq_iff "**/scratch/**" "")) refl

build_exclusions-covers_example : holds "**/data/**" (build_exclusions lines host).0 ≡ true
unfolding get_proc_mounts_path mounts_of
build_exclusions-covers_example =
    build_exclusions-covers lines host ("nas:/x /data nfs4 rw 0 0" ∷ "short" ∷ []) data_mount refl
      refl (Memᴰ.head refl) (λ e. ground (arith, eq_iff "nfs4" "")) refl
      (λ e. ground (arith, eq_iff "data" ""))
