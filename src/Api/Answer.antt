-- ===== src/Api/Answer.antt =====
-- What the API answers: the response types of internal/api/handlers.go, before they are encoded.
use mydhcp.Common.{ℕ, List, [], ◌∷◌, ◌++◌, Option}
use mydhcp.Lease.{State, reserved, offered, bound, expired, declined}
use mydhcp.Net.Cidr.{IpNet}
use mydhcp.Subnet.{Manager}
use mydhcp.Text.{decimal, dotted, colon_hex}
use mydhcp.Ztp.Defs.{Device, Profile, Ztp}
use mydhcp.Ztp.Render.{text_or_empty}

-- The state behind the API. There is no manager of devices where ZTP is disabled.
pub record Program : Type 0 where
  pub subnets : Manager
  pub ztp : Option Ztp

pub record SubnetResponse : Type 0 where
  pub name : List ℕ
  pub network : List ℕ
  pub router : List ℕ
  pub occupied_count : ℕ

-- An empty time is left out of the encoded response.
pub record LeaseResponse : Type 0 where
  pub ip : List ℕ
  pub client_id : List ℕ
  pub state : List ℕ
  pub subnet_name : List ℕ
  pub offered_at : List ℕ
  pub bound_at : List ℕ
  pub expires_at : List ℕ

pub record DeviceResponse : Type 0 where
  pub mac : List ℕ
  pub vendor_profile : List ℕ
  pub static_ip : List ℕ
  pub hostname : List ℕ
  pub vars : List ℕ

-- A body. The messages of errors are left out, and a profile's response has the profile's fields.
pub data Body : Type 0 where
  empty failed : Body
  subnets : List SubnetResponse → Body
  leases : List LeaseResponse → Body
  created : List ℕ → Body
  occupied : ℕ → ℕ → ℕ → Body
  device : DeviceResponse → Body
  devices : List DeviceResponse → Body
  profile : Profile → Body
  profiles : List Profile → Body
  deleted : List ℕ → List (List ℕ) → Body
  content : List ℕ → Body

-- A handler writes an answer, or dereferences nil: then net/http closes the connection.
pub data Response : Type 0 where
  answers : ℕ → Body → Response
  panics : Response

-- writeError
abbrev pub write_error : ℕ → Response
write_error status = answers status failed

unfoldable pub state_text : State → List ℕ
state_text reserved = b'r' ∷ b'e' ∷ b's' ∷ b'e' ∷ b'r' ∷ b'v' ∷ b'e' ∷ b'd' ∷ []
state_text offered = b'o' ∷ b'f' ∷ b'f' ∷ b'e' ∷ b'r' ∷ b'e' ∷ b'd' ∷ []
state_text bound = b'b' ∷ b'o' ∷ b'u' ∷ b'n' ∷ b'd' ∷ []
state_text expired = b'e' ∷ b'x' ∷ b'p' ∷ b'i' ∷ b'r' ∷ b'e' ∷ b'd' ∷ []
state_text declined = b'd' ∷ b'e' ∷ b'c' ∷ b'l' ∷ b'i' ∷ b'n' ∷ b'e' ∷ b'd' ∷ []

-- net.IPNet.String
unfoldable pub network_text : IpNet → List ℕ
unfolding dotted decimal
network_text n = dotted n.ip ++ b'/' ∷ decimal n.ones

-- deviceToResponse
unfoldable pub device_to_response : Device → DeviceResponse
unfolding colon_hex text_or_empty
device_to_response d = record {
  mac = colon_hex d.mac;
  vendor_profile = d.vendor_profile;
  static_ip = text_or_empty d.static_ip;
  hostname = d.hostname;
  vars = d.vars;
}
