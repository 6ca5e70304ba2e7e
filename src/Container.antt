-- ===== src/Container.antt =====
-- The identifiers that the scanner passes around: scanner-core/containers/types.go.
-- A Go string is a text, and is compared whole.
use bjorn2scan.Base.{String}

pub record ContainerId : Type 0 where
  pub namespace : String
  pub pod : String
  pub name : String

pub record ImageId : Type 0 where
  pub reference : String
  pub digest : String

pub record Container : Type 0 where
  pub id : ContainerId
  pub image : ImageId
  pub node_name : String
  pub container_runtime : String
