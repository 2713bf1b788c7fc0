-- ===== src/Tests/Configs.antt =====
-- The theorem on a configuration at work.
use mydhcp.Common.{ℕ, ◌≡◌, refl, List, [], ◌∷◌, Result, ok, text_eq}
use mydhcp.Config.{SubnetConfig, validate}
use mydhcp.Config.Complete.{AreComplete, validate-AreComplete}

abbrev server : List ℕ
server = 49 ∷ []

-- A subnet that sets no duration but the offer's.
abbrev office : SubnetConfig
office = record {
  name = 111 ∷ [];
  network = 49 ∷ [];
  router = [];
  dns = [];
  lease_time = 0;
  offer_timeout = 7;
  decline_cooldown = 0;
  lease_reaper_interval = 0;
  range_start = 50 ∷ [];
  range_end = 51 ∷ [];
}

office_passes : (validate server (office ∷ [])).1 ≡ ok tt
unfolding validate mydhcp.Common.Text-discrete
office_passes = refl

validate-AreComplete_example :
    AreComplete (validate server (office ∷ [])).0
    × (validate server (validate server (office ∷ [])).0 ≡ validate server (office ∷ []))
validate-AreComplete_example = validate-AreComplete server (office ∷ []) office_passes
