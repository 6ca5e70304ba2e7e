-- ===== src/Exclusions/Network.antt =====
-- Which mounts sbom-generator-shared/exclusions leaves out.
use text.Mathlib.TextLemmas.{cons-ne-nil, append-eq-nil_iff}
use bjorn2scan.Base.{
  ◌≡◌, ◌≢◌, refl, sym, ◌∙◌, ap, String, true, false, not, ◌&&◌, ◌||◌, List, [], ◌∷◌, ◌++◌, str_eq,
  eq_iff, arith, Bool-cases, inl, inr, some, ok, err, Memᴰ, holds, first_occurrences, not_empty,
  without-none, holds-first_occurrences, holds-not_empty, holds-append,
}
use bjorn2scan.Exclusions.Merge.{Merging, add_list, merge_exclusions}
use bjorn2scan.Exclusions.Order.{add_list-append, add_list-lem}
use bjorn2scan.Exclusions.Mounts.{
  Files, MountInfo, MountDetectionConfig, mounts_of, parse_mounts, network_mounts,
  detect_network_mounts, patterns_of, pattern_of, get_effective_network_types,
  generate_network_exclusions, get_proc_mounts_path, default_network_filesystem_types, add_defaults,
}
use bjorn2scan.Exclusions.Contents.{holds-merge_two}
use bjorn2scan.Exclusions.Paths.{trim_slash}
use bjorn2scan.Exclusions.Patterns.{
  HostExclusionConfig, default_host_exclusions, network_patterns, build_exclusions,
}

add_defaults-add_list :
    (m : Merging) (ts : List String) → holds "" ts ≡ false → add_defaults m ts ≡ add_list m ts
unfolding add_defaults add_list
add_defaults-add_list m [] h = refl
add_defaults-add_list m (t ∷ ts) h = elim (Bool-cases (holds t m.seen)) [
  | inl e ↦ ground (arith, eq_iff t "", add_defaults-add_list m ts)
  | inr e ↦ ground (
    arith,
    eq_iff t "",
    add_defaults-add_list (record { seen = t ∷ m.seen; result = m.result ++ t ∷ [] }) ts,
  )
]

merged_types :
    (ts us : List String)
    → holds "" ts ≡ false
    → (add_list (add_defaults (record { seen = []; result = [] }) ts) us).result
      ≡ first_occurrences (not_empty (ts ++ us))
merged_types ts us h =
    ap (λ m. (add_list m us).result)
      (add_defaults-add_list (record { seen = []; result = [] }) ts h)
    ∙ ap (λ m. m.result) (sym (add_list-append (record { seen = []; result = [] }) ts us))
    ∙ add_list-lem (record { seen = []; result = [] }) (ts ++ us)
    ∙ without-none (first_occurrences (not_empty (ts ++ us)))

-- The effective types are the default ones, and behind them the first occurrences of the extra ones
-- that are neither empty nor default.
pub get_effective_network_types-lem :
    (c : MountDetectionConfig)
    → get_effective_network_types (some c)
      ≡ first_occurrences (not_empty (default_network_filesystem_types ++ c.extra_network_types))
unfolding get_effective_network_types
get_effective_network_types-lem c = types c.extra_network_types
  where
    types :
        (us : List String)
        → get_effective_network_types (some (record { extra_network_types = us }))
          ≡ first_occurrences (not_empty (default_network_filesystem_types ++ us))
    types [] = refl
    types (u ∷ us) = merged_types default_network_filesystem_types (u ∷ us) refl

network_mounts-holds :
    (types : List String) (ms : List MountInfo) (m : MountInfo)
    → Memᴰ m ms
    → holds m.fs_type types ≡ true
    → holds m.mount_point (network_mounts types ms) ≡ true
unfolding network_mounts
network_mounts-holds types [] m i h = elim i [ ]
network_mounts-holds types (n ∷ ms) m (Memᴰ.head e) h =
    ground
      (arith, ap (λ k. k.fs_type) e, ap (λ k. k.mount_point) e, eq_iff n.mount_point m.mount_point)
network_mounts-holds types (n ∷ ms) m (Memᴰ.tail i) h =
    ground (arith, network_mounts-holds types ms m i h)

patterns_of-holds :
    (ps : List String) (p : String)
    → trim_slash p ≢ ""
    → holds p ps ≡ true
    → holds (pattern_of p) (patterns_of ps) ≡ true
unfolding patterns_of
patterns_of-holds [] p ne h = cc
patterns_of-holds (q ∷ ps) p ne h = ground (
  arith,
  eq_iff q p,
  eq_iff (trim_slash p) "",
  eq_iff (pattern_of p) (pattern_of p),
  patterns_of-holds ps p ne,
)

holds-types :
    (c : MountDetectionConfig) (t : String)
    → t ≢ ""
    → (holds t default_network_filesystem_types || holds t c.extra_network_types) ≡ true
    → holds t (get_effective_network_types (some c)) ≡ true
holds-types c t ne h =
    ap (holds t) (get_effective_network_types-lem c)
    ∙ holds-first_occurrences t
        (not_empty (default_network_filesystem_types ++ c.extra_network_types))
    ∙ holds-not_empty t (default_network_filesystem_types ++ c.extra_network_types)
    ∙ ap (λ b. not (str_eq t "") && b)
        (holds-append t default_network_filesystem_types c.extra_network_types ∙ h)
    ∙ ground (arith, eq_iff t "")

network_patterns-holds :
    (files : Files) (path : String) (c : MountDetectionConfig) (lines : List String) (m : MountInfo)
    → files path ≡ ok lines
    → Memᴰ m (mounts_of lines)
    → m.fs_type ≢ ""
    → (holds m.fs_type default_network_filesystem_types || holds m.fs_type c.extra_network_types)
      ≡ true
    → trim_slash m.mount_point ≢ ""
    → (ps : List String) × (generate_network_exclusions files path (some c) ≡ ok ps)
      × (holds (pattern_of m.mount_point) ps ≡ true)
unfolding generate_network_exclusions detect_network_mounts parse_mounts
network_patterns-holds files path c lines m e i typed known ne =
    let types = get_effective_network_types (some c) in
    (
      patterns_of (network_mounts types (mounts_of lines)),
      ground (arith, e),
      patterns_of-holds (network_mounts types (mounts_of lines)) m.mount_point ne
          (network_mounts-holds types (mounts_of lines) m i (holds-types c m.fs_type typed known)),
    )

build_found :
    (files : Files) (c : HostExclusionConfig) (ps : List String)
    → c.auto_detect_nfs ≡ true
    → network_patterns files c ≡ ok ps
    → (build_exclusions files c).0
      ≡ merge_exclusions
          (merge_exclusions (default_host_exclusions ∷ ps ∷ []) ∷ c.extra_exclusions ∷ [])
unfolding build_exclusions
build_found files c ps auto e = ground (arith, auto, e)

merge_middle :
    (p : String) (xs ys zs : List String)
    → p ≢ ""
    → holds p ys ≡ true
    → holds p (merge_exclusions (merge_exclusions (xs ∷ ys ∷ []) ∷ zs ∷ [])) ≡ true
merge_middle p xs ys zs ne h = ground (
  arith,
  eq_iff p "",
  holds-merge_two p xs ys,
  holds-merge_two p (merge_exclusions (xs ∷ ys ∷ [])) zs,
)

pattern_of-full : (p : String) → pattern_of p ≢ ""
pattern_of-full p e = cons-ne-nil _ _ (append-eq-nil_iff.0 e).0

-- Where the mounts are looked for and their file can be read, the list of exclusions has the pattern
-- `**<path>/**` of each of its mounts with a network file system, of a default or an extra type, by
-- the text of the path in the file, unless it is mounted at the root.
pub build_exclusions-covers :
    (files : Files) (c : HostExclusionConfig) (lines : List String) (m : MountInfo)
    → c.auto_detect_nfs ≡ true
    → files (get_proc_mounts_path c.host_prefix) ≡ ok lines
    → Memᴰ m (mounts_of lines)
    → m.fs_type ≢ ""
    → (holds m.fs_type default_network_filesystem_types || holds m.fs_type c.extra_network_fs_types)
      ≡ true
    → trim_slash m.mount_point ≢ ""
    → holds (pattern_of m.mount_point) (build_exclusions files c).0 ≡ true
unfolding build_exclusions
build_exclusions-covers files c lines m auto read i typed known ne =
    let (ps, e, h) =
      network_patterns-holds files (get_proc_mounts_path c.host_prefix)
        (record { extra_network_types = c.extra_network_fs_types }) lines m read i typed known ne in
    ap (holds (pattern_of m.mount_point)) (build_found files c ps auto e)
    ∙ merge_middle (pattern_of m.mount_point) default_host_exclusions ps c.extra_exclusions
        (pattern_of-full m.mount_point) h

-- Where the file of the mounts cannot be read, the list is the one without detection, with the error.
build_exclusions-fallback :
    (files : Files) (c : HostExclusionConfig) (x : String)
    → c.auto_detect_nfs ≡ true
    → files (get_proc_mounts_path c.host_prefix) ≡ err x
    → build_exclusions files c
      ≡ ((build_exclusions files (record c { auto_detect_nfs = false })).0, some x)
unfolding build_exclusions generate_network_exclusions detect_network_mounts parse_mounts
build_exclusions-fallback files c x auto e = ground (arith, auto, e)
