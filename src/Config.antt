-- ===== src/Config.antt =====
-- internal/config/config.go: the check of a configuration that fills in the defaults. A duration
-- is a count of nanoseconds. Load is in Config/Load.
pub mod Complete
pub mod Load
use mydhcp.Common.{ℕ, ◌+◌, List, [], ◌∷◌, ite, ◌=?◌, text_eq, ◌==◌, if◌then◌else◌, Result, ok, err}

pub record SubnetConfig : Type 0 where
  pub name : List ℕ
  pub network : List ℕ
  pub router : List ℕ
  pub dns : List (List ℕ)
  pub lease_time : ℕ
  pub offer_timeout : ℕ
  pub decline_cooldown : ℕ
  pub lease_reaper_interval : ℕ
  pub range_start : List ℕ
  pub range_end : List ℕ

-- The errors of validate, with the subnet's index or name.
pub data Error : Type 0 where
  server_ip_required : Error
  name_required : ℕ → Error
  network_required range_required : List ℕ → Error

unfoldable pub or_default : ℕ → ℕ → ℕ
or_default d n = if n == 0 then d else n

-- What the loop of validate writes to an entry that it accepts.
unfoldable pub with_defaults : SubnetConfig → SubnetConfig
unfolding or_default
with_defaults s = record s {
  lease_time = or_default 86400000000000 s.lease_time;
  offer_timeout = or_default 30000000000 s.offer_timeout;
  decline_cooldown = or_default 600000000000 s.decline_cooldown;
  lease_reaper_interval = or_default 60000000000 s.lease_reaper_interval;
}

-- The tests of the loop's body.
unfoldable pub check_subnet : ℕ → SubnetConfig → Result Error (Unit {0})
check_subnet i s = ite (s.name =? []) (err (name_required i)) (
    ite (s.network =? []) (err (network_required s.name)) (
      ite (s.range_start =? []) (err (range_required s.name))
        (ite (s.range_end =? []) (err (range_required s.name)) (ok tt))))

-- The loop, which writes to the entries in front of the one that it refuses.
unfoldable pub validate_subnets :
    ℕ → List SubnetConfig → List SubnetConfig × Result Error (Unit {0})
unfolding check_subnet with_defaults
validate_subnets i [] = ([], ok tt)
validate_subnets i (s ∷ ss) =
    let rest = validate_subnets (i + 1) ss in
    elim (check_subnet i s) [ err e ↦ (s ∷ ss, err e) | ok u ↦ (with_defaults s ∷ rest.0, rest.1) ]

-- validate, of the server's address and the subnets.
unfoldable pub validate : List ℕ → List SubnetConfig → List SubnetConfig × Result Error (Unit {0})
unfolding validate_subnets
validate server_ip ss = ite (server_ip =? []) (ss, err server_ip_required) (validate_subnets 0 ss)
