-- ===== src/Api/Routes.antt =====
-- The routes of NewServer in internal/api/server.go.
use mydhcp.Common.{ℕ, List, Option, some}
use mydhcp.Ztp.Defs.{Profile}
use mydhcp.Ztp.Render.{Template}
use mydhcp.Api.Parse.{Parsers, SubnetRequest}
use mydhcp.Api.Answer.{Program, Response}
use mydhcp.Api.Subnets.{list_subnets, add_subnet, delete_subnet, list_leases}
use mydhcp.Api.Devices.{
  DeviceRequest, list_devices, add_device, show_device, delete_device, list_profiles, add_profile,
  show_profile, delete_profile, show_config,
}

-- A request of each route, with its path value, its filter, or its body, which is `none` where it
-- does not decode.
pub data Request : Type 0 where
  get_subnets get_devices get_profiles : Request
  post_subnet : Option SubnetRequest → Request
  delete_subnet_named get_leases get_device_of delete_device_of : List ℕ → Request
  post_device : Option DeviceRequest → Request
  post_profile : Option Profile → Request
  get_profile_named delete_profile_named get_config_of : List ℕ → Request

-- The state behind the request and the answer; `none` where addSubnet does not return.
unfoldable pub serve_request :
    Parsers → Template → ℕ → Program → Request → Option (Program × Response)
serve_request p template fuel st get_subnets = some (st, list_subnets st.subnets)
serve_request p template fuel st (post_subnet body) = add_subnet p fuel st body
serve_request p template fuel st (delete_subnet_named name) = some (delete_subnet st name)
serve_request p template fuel st (get_leases filter) = some (st, list_leases p st.subnets filter)
serve_request p template fuel st get_devices = some (st, list_devices st)
serve_request p template fuel st (post_device body) = some (add_device p st body)
serve_request p template fuel st (get_device_of mac) = some (st, show_device p st mac)
serve_request p template fuel st (delete_device_of mac) = some (delete_device p st mac)
serve_request p template fuel st get_profiles = some (st, list_profiles st)
serve_request p template fuel st (post_profile body) = some (add_profile st body)
serve_request p template fuel st (get_profile_named name) = some (st, show_profile st name)
serve_request p template fuel st (delete_profile_named name) = some (delete_profile st name)
serve_request p template fuel st (get_config_of mac) = some (st, show_config p template st mac)
