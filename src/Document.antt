-- ===== src/Document.antt =====
-- The snapshot that schema.normalize returns (aisecure/schema.py): assets and events with
-- pseudonymous identifiers. A time is the number of seconds that its ISO text names. All these
-- texts have one layout, so they are ordered as the numbers are. A CVSS score is a multiple of
-- 2^-1074, which every finite double is.
use aisecure.Prelude.{ℕ, String, List, Option, Bool}

pub data AssetKind : Type 0 where
  vpn server saas endpoint unknown : AssetKind

pub data PatchState : Type 0 where
  pending applied unknown not_applicable : PatchState

pub record Vulnerability : Type 0 where
  pub reference : String
  pub cvss : Option ℕ
  pub known_exploited : Option Bool

pub record Asset : Type 0 where
  pub id : String
  pub kind : AssetKind
  pub patch_state : PatchState
  pub observed_at : ℕ
  pub vulnerability : Option Vulnerability
  pub internet_exposed : Option Bool
  pub privileged_path : Option Bool
  pub sensitive_path : Option Bool

pub record Login : Type 0 where
  pub id : String
  pub at : ℕ
  pub actor : String
  pub session : String
  pub gateway_id : String
  pub success : Bool
  pub privileged : Option Bool
  pub device_trusted : Option Bool
  pub approved : Option Bool

pub record FileAccess : Type 0 where
  pub id : String
  pub at : ℕ
  pub actor : String
  pub session : String
  pub asset_id : String
  pub file_id : String
  pub sensitive : Option Bool
  pub bytes_read : Option ℕ

pub data Event : Type 0 where
  login : Login → Event
  file_access : FileAccess → Event

pub record Source : Type 0 where
  pub label : String
  pub sha256 : String
  pub rows_read : ℕ
  pub rows_imported : ℕ
  pub connector : Option String
  pub verified : Bool

pub data SourceMode : Type 0 where
  demo imported : SourceMode

pub record Document : Type 0 where
  pub as_of : ℕ
  pub source_mode : SourceMode
  pub provenance : List Source
  pub assets : List Asset
  pub events : List Event
