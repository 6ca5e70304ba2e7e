-- ===== src/Nodes/Removal.antt =====
-- How `RemoveNode` of scanner-core/nodes/manager.go repeats the removal in the database.
use bjorn2scan.Base.{
  ℕ, zero, suc, ◌+◌, ◌-◌, ◌<◌, ◌≡◌, String, true, none, ok, err, str_eq, arith, if◌then◌else◌, ◌∙◌,
  ap,
}
use bjorn2scan.Base.Maps.{get-delete}
use bjorn2scan.Nodes.Manager.{NodeStore, NodeManager, attempt_removal, remove_node, get_node}

module _ (s : NodeStore) (name : String) where
  -- The state behind some attempts.
  abbrev pub tried : ℕ → s.State → s.State
  tried zero st = st
  tried (suc k) st = tried k (s.remove_node name st).1

  -- The first attempts fail.
  abbrev pub AllFail : ℕ → s.State → Type 0
  AllFail zero st = Unit {0}
  AllFail (suc k) st =
      ((x : String) × ((s.remove_node name st).0 ≡ err x)) × AllFail k (s.remove_node name st).1

  attempt_removal-tried :
      (k n : ℕ) (st : s.State)
      → AllFail k st
      → (s.remove_node name (tried k st)).0 ≡ ok tt
      → attempt_removal s (k + suc n) name st ≡ tried (suc k) st
  unfolding attempt_removal
  attempt_removal-tried zero n st f h = ground (arith, h)
  attempt_removal-tried (suc k) n st ((x, e), f) h =
      let more : suc k + suc n ≡ suc (k + suc n) = omega arith in
      ap (λ a. attempt_removal s a name st) more
      ∙ ground (arith, e)
      ∙ attempt_removal-tried k n (s.remove_node name st).1 f h

-- With a database, where some attempts, fewer than four, fail and the next one succeeds, `RemoveNode`
-- leaves the database as that attempt left it, and a look-up gives nothing for the name and what it
-- gave before for each other name.
pub remove_node-tried :
    (s : NodeStore) (name other_name : String) (k : ℕ) (m : NodeManager s)
    → m.has_database ≡ true
    → k < 4
    → AllFail s name k m.state
    → (s.remove_node name (tried s name k m.state)).0 ≡ ok tt
    → ((remove_node s name m).state ≡ tried s name (suc k) m.state)
      × (get_node s other_name (remove_node s name m)
          ≡ (if str_eq name other_name then none else get_node s other_name m))
unfolding remove_node get_node
remove_node-tried s name other_name k m db p f h =
    let four : k + suc (3 - k) ≡ 4 = omega arith in
    let last = attempt_removal-tried s name k (3 - k) m.state f h in
    (
      ground (arith, ap (λ a. attempt_removal s a name m.state) four, last),
      ground (arith, get-delete name other_name m.nodes),
    )
