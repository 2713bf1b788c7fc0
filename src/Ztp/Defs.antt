-- ===== src/Ztp/Defs.antt =====
-- device.go, profile.go and the two in-memory stores of memory.go.
use mydhcp.Common.{ℕ, List, [], ◌∷◌, Option, some, none, text_eq, ite, ◌=?◌}
use mydhcp.Common.Maps.{Map, lookup, insert, delete, values}
use mydhcp.Net.{Ip}
use mydhcp.Text.{hex}

-- The variables are only handed to the template, so a device record keeps them as bytes.
pub record Device : Type 0 where
  pub mac : List ℕ
  pub vendor_profile : List ℕ
  pub static_ip : Option Ip
  pub hostname : List ℕ
  pub vars : List ℕ

pub record Profile : Type 0 where
  pub name : List ℕ
  pub match_option60 : List ℕ
  pub config_template : List ℕ

pub record Ztp : Type 0 where
  pub devices : Map (List ℕ) Device
  pub profiles : Map (List ℕ) Profile

-- MACKey; the test for an empty address gives what the loop gives.
unfoldable pub mac_key : List ℕ → List ℕ
unfolding hex
mac_key mac = hex mac

-- DeviceRecord.ClientID
unfoldable pub device_client_id : Device → List ℕ
unfolding hex
device_client_id d = hex d.mac

unfoldable pub put_device : Ztp → Device → Ztp
unfolding mac_key
put_device z d = record z { devices = insert (mac_key d.mac) d z.devices }

unfoldable pub get_device : Ztp → List ℕ → Option Device
unfolding mac_key
get_device z mac = lookup (mac_key mac) z.devices

unfoldable pub drop_device : Ztp → List ℕ → Ztp
unfolding mac_key
drop_device z mac = record z { devices = delete (mac_key mac) z.devices }

abbrev pub stored_devices : Ztp → List Device
stored_devices z = values z.devices

unfoldable pub add_profile : Ztp → Profile → Ztp
add_profile z p = record z { profiles = insert p.name p z.profiles }

unfoldable pub get_profile : Ztp → List ℕ → Option Profile
get_profile z name = lookup name z.profiles

unfoldable pub drop_profile : Ztp → List ℕ → Ztp
drop_profile z name = record z { profiles = delete name z.profiles }

abbrev pub stored_profiles : Ztp → List Profile
stored_profiles z = values z.profiles

-- The loop of GetByOption60: a profile with no match text is passed over.
unfoldable pub match_profile : List Profile → List ℕ → Option Profile
match_profile [] option60 = none
match_profile (p ∷ ps) option60 =
    ite (p.match_option60 =? []) (match_profile ps option60)
      (ite (p.match_option60 =? option60) (some p) (match_profile ps option60))

unfoldable pub get_by_option60 : Ztp → List ℕ → Option Profile
unfolding match_profile
get_by_option60 z option60 = ite (option60 =? []) none (match_profile (values z.profiles) option60)
