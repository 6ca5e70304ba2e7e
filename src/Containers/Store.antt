-- ===== src/Containers/Store.antt =====
-- `DatabaseInterface` of scanner-core/containers/manager.go, by explicit state.
use bjorn2scan.Base.{ℕ, String, Bool, List, Result}
use bjorn2scan.Container.{ContainerId, Container}

pub record ReconciliationStats : Type 0 where
  pub containers_added : ℕ
  pub containers_removed : ℕ
  pub images_added : ℕ

pub record Store : Type 1 where
  pub State : Type 0
  pub add_container : Container → State → Result Bool × State
  pub remove_container : ContainerId → State → Result (Unit {0}) × State
  pub set_containers : List Container → State → Result ReconciliationStats × State
  pub get_image_scan_status : String → State → Result String × State
  pub get_image_scan_status_bulk : List String → State → Result (List (String × String)) × State
  pub is_scan_data_complete : String → State → Result Bool × State
  pub is_scan_data_complete_bulk : List String → State → Result (List (String × Bool)) × State
