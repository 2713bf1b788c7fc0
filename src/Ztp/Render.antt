-- ===== src/Ztp/Render.antt =====
-- RenderConfig of internal/ztp/profile.go. The template library is a parameter: what a template
-- makes of the data, or `none` where parsing or executing it fails.
use mydhcp.Common.{ℕ, List, [], Option, some, none}
use mydhcp.Net.{Ip}
use mydhcp.Net.Cidr.{mask}
use mydhcp.Subnet.{Manager, subnet_for_ip}
use mydhcp.Text.{colon_hex, dotted}
use mydhcp.Ztp.Defs.{Device, Profile, device_client_id}

pub record TemplateData : Type 0 where
  pub mac : List ℕ
  pub mac_no_dash : List ℕ
  pub ip : List ℕ
  pub subnet_mask : List ℕ
  pub router : List ℕ
  pub hostname : List ℕ
  pub vars : List ℕ

abbrev pub Template : Type 0
Template = List ℕ → TemplateData → Option (List ℕ)

-- `if ip != nil { s = ip.String() }`
unfoldable pub text_or_empty : Option Ip → List ℕ
unfolding dotted
text_or_empty none = []
text_or_empty (some a) = dotted a

unfoldable pub template_data : Device → Option Ip → Option Ip → Option Ip → TemplateData
unfolding colon_hex device_client_id text_or_empty
template_data d ip subnet_mask router = record {
  mac = colon_hex d.mac;
  mac_no_dash = device_client_id d;
  ip = text_or_empty ip;
  subnet_mask = text_or_empty subnet_mask;
  router = text_or_empty router;
  hostname = d.hostname;
  vars = d.vars;
}

unfoldable pub render_config :
    Template → Profile → Device → Option Ip → Option Ip → Option Ip → Option (List ℕ)
unfolding template_data
render_config template p d ip subnet_mask router =
    template p.config_template (template_data d ip subnet_mask router)

-- The mask and the router of the subnet of an address: nil where no subnet has it.
unfoldable pub net_of : Manager → Option Ip → Option Ip × Option Ip
net_of m none = (none, none)
net_of m (some a) = elim (subnet_for_ip m (some a)) [
  | none ↦ (none, none)
  | some e ↦ (some (mask e.cfg.network), e.cfg.router)
]

-- The rendered configuration of a device, by its static address.
unfoldable pub device_config : Template → Manager → Device → Profile → Option (List ℕ)
unfolding render_config net_of
device_config template m d p =
    let (subnet_mask, router) = net_of m d.static_ip in
    render_config template p d d.static_ip subnet_mask router
