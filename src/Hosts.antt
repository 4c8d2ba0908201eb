-- ===== src/Hosts.antt =====
-- internal/hosts/hosts.go: the saved hosts.
pub mod Url
pub mod Store
mod Tests
use d9c.Base.{Bool, String, Option, ◌||◌, ◌==◌, not, if◌then◌else◌, trim_space, has_prefix, ◌&&◌}

-- `nil` fields are `none`; an unset maxTier is the empty text.
pub record AgentPolicy : Type 0 where
  pub allow_write : Option Bool
  pub max_tier : String

pub record Host : Type 0 where
  pub name : String
  pub host : String
  pub ssh_auth : String
  pub ssh_key_path : String
  pub read_only : Bool
  pub tls_ca_cert : String
  pub tls_cert : String
  pub tls_key : String
  pub agent : Option AgentPolicy

-- Host.HasTLS
unfoldable pub has_tls : Host → Bool
has_tls h = not (h.tls_ca_cert == "") || not (h.tls_cert == "") || not (h.tls_key == "")
