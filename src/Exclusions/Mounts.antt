-- ===== src/Exclusions/Mounts.antt =====
-- The mounts of network file systems: sbom-generator-shared/exclusions/mounts.go. Opening and
-- reading the file of the mounts is a parameter: its lines, or the error.
use Prim.Native.String.{◌++◌ as str_append}
use bjorn2scan.Base.{
  String, List, [], ◌∷◌, ◌++◌, Option, none, some, Result, ok, err, str_eq, if◌then◌else◌, holds,
}
use bjorn2scan.Exclusions.Paths.{fields, trim_slash, clean}
use bjorn2scan.Exclusions.Merge.{Merging, add_list}

abbrev pub default_network_filesystem_types : List String
default_network_filesystem_types =
    "nfs" ∷ "nfs4" ∷ "cifs" ∷ "smbfs" ∷ "fuse.sshfs" ∷ "fuse.rclone" ∷ "fuse.s3fs" ∷ "afs" ∷ "gfs"
    ∷ "gfs2" ∷ "lustre" ∷ "glusterfs" ∷ []

pub record MountDetectionConfig : Type 0 where
  pub extra_network_types : List String

-- The loop over the defaults, which does not look for empty texts.
unfoldable pub add_defaults : Merging → List String → Merging
add_defaults m [] = m
add_defaults m (t ∷ ts) =
    add_defaults
      (if holds t m.seen then m else record { seen = t ∷ m.seen; result = m.result ++ t ∷ [] }) ts

unfoldable pub get_effective_network_types : Option MountDetectionConfig → List String
unfolding add_defaults add_list
get_effective_network_types none = default_network_filesystem_types
get_effective_network_types (some c) = elim c.extra_network_types [
  | [] ↦ default_network_filesystem_types
  | t ∷ ts ↦
      (add_list (add_defaults (record { seen = []; result = [] }) default_network_filesystem_types)
        (t ∷ ts)).result
]

pub record MountInfo : Type 0 where
  pub device : String
  pub mount_point : String
  pub fs_type : String
  pub options : String

-- A line with fewer than four fields is no mount.
abbrev pub mount_of : List String → Option MountInfo
mount_of (d ∷ p ∷ t ∷ o ∷ rest) =
    some (record { device = d; mount_point = p; fs_type = t; options = o })
mount_of _ = none

unfoldable pub mounts_of : List String → List MountInfo
mounts_of [] = []
mounts_of (line ∷ lines) = elim (mount_of (fields line)) [
  | some m ↦ m ∷ mounts_of lines
  | none ↦ mounts_of lines
]

-- The lines of a file, or the error of opening or reading it.
abbrev pub Files : Type 0
Files = String → Result (List String)

unfoldable pub parse_mounts : Files → String → Result (List MountInfo)
unfolding mounts_of
parse_mounts files path = elim (files path) [ ok lines ↦ ok (mounts_of lines) | err x ↦ err x ]

unfoldable pub network_mounts : List String → List MountInfo → List String
network_mounts types [] = []
network_mounts types (m ∷ ms) =
    let rest = network_mounts types ms in
    if holds m.fs_type types then m.mount_point ∷ rest else rest

unfoldable pub detect_network_mounts :
    Files → String → Option MountDetectionConfig → Result (List String)
unfolding parse_mounts network_mounts get_effective_network_types
detect_network_mounts files path c = elim (parse_mounts files path) [
  | ok ms ↦ ok (network_mounts (get_effective_network_types c) ms)
  | err x ↦ err x
]

abbrev pub pattern_of : String → String
pattern_of p = str_append "**/" (str_append (trim_slash p) "/**")

unfoldable pub patterns_of : List String → List String
patterns_of [] = []
patterns_of (p ∷ ps) =
    let rest = patterns_of ps in if str_eq (trim_slash p) "" then rest else pattern_of p ∷ rest

unfoldable pub generate_network_exclusions :
    Files → String → Option MountDetectionConfig → Result (List String)
unfolding detect_network_mounts patterns_of
generate_network_exclusions files path c = elim (detect_network_mounts files path c) [
  | ok ps ↦ ok (patterns_of ps)
  | err x ↦ err x
]

unfoldable pub get_proc_mounts_path : String → String
unfolding clean
get_proc_mounts_path prefix =
    if str_eq prefix "" then "/proc/mounts" else clean (str_append prefix "/proc/mounts")
