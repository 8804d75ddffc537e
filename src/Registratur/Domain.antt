-- ===== src/Registratur/Domain.antt =====
-- registratur/src/v2/domain/*.rs: the documents of a registry, as far as the program reads them.
use knast.Base.{ℕ, Text, Option, List, Bool}

pub record Descriptor : Type 0 where
  pub media_type : Text
  pub digest : Text
  pub size : ℕ
  pub urls : Option (List Text)

-- manifest.rs; annotations are pairs of a key and a value.
pub record Manifest : Type 0 where
  pub schema_version : ℕ
  pub media_type : Option Text
  pub config : Descriptor
  pub layers : List Descriptor
  pub annotations : Option (List (Text × Text))

-- manifest_index.rs
pub record Platform : Type 0 where
  pub architecture : Text
  pub os : Text
  pub os_version : Option Text
  pub os_features : Option (List Text)
  pub variant : Option Text

pub record IndexEntry : Type 0 where
  pub descriptor : Descriptor
  pub platform : Option Platform

pub record ManifestIndex : Type 0 where
  pub schema_version : ℕ
  pub manifests : List IndexEntry
  pub annotations : Option (List (Text × Text))

-- config.rs; the maps from ports and volumes to empty maps are the lists of their keys.
pub record Container : Type 0 where
  pub user : Option Text
  pub exposed_ports : Option (List Text)
  pub env : Option (List Text)
  pub entrypoint : Option (List Text)
  pub cmd : Option (List Text)
  pub volumes : Option (List Text)
  pub working_dir : Text
  pub labels : Option (List (Text × Text))
  pub stop_signal : Option Text

pub record RootFs : Type 0 where
  pub kind : Text
  pub diff_ids : List Text

pub record HistoryItem : Type 0 where
  pub created : Option ℕ
  pub author : Option Text
  pub created_by : Option Text
  pub comment : Option Text
  pub empty_layer : Option Bool

pub record Config : Type 0 where
  pub created : Option ℕ
  pub author : Option Text
  pub architecture : Text
  pub os : Text
  pub config : Option Container
  pub rootfs : RootFs
  pub history : List HistoryItem
