-- ===== src/Tests/Requests.antt =====
-- The theorems on a REQUEST at work.
use mydhcp.Common.{
  ℕ, ◌≡◌, refl, [], ◌∷◌, Option, some, none, false, inl, inr, nat_eq, text_eq, ℕ_discrete,
  Text-discrete,
}
use mydhcp.Net.{Ip, ip_eq, Ip-discrete}
use mydhcp.Dhcp.Options.{server_id}
use mydhcp.Dhcp.Packet.{client_id}
use mydhcp.Dhcp.Handler.{for_other_server, wanted_ip, not_static, static_ip}
use mydhcp.Dhcp.Handler.Grant.{Acknowledges}
use mydhcp.Dhcp.Handler.Request.{
  Answer, requested, handle_request-Acknowledges, handle_request-Answer,
}
use mydhcp.Tests.Data.{host, alice, busy, busy-IsValid, busy-alice, alice_lease}
use mydhcp.Tests.Nets.{lan, request}

our_server : for_other_server (server_id request.options) (some (host 1)) ≡ false
unfolding for_other_server server_id mydhcp.Common.Maps.lookup ℕ_discrete Ip-discrete
our_server = refl

wants_own : wanted_ip request ≡ some (host 2)
unfolding wanted_ip Ip-discrete mydhcp.Net.uint32_to_ip
wants_own = refl

no_static : not_static (static_ip none) (host 2) ≡ false
unfolding not_static static_ip
no_static = refl

alice_id : alice ≡ client_id request
unfolding client_id Text-discrete mydhcp.Dhcp.Options.options_client_id mydhcp.Common.Maps.lookup
alice_id = refl

handle_request-Acknowledges_example :
    Acknowledges
      (some (host 1))
      request
      lan
      busy
      none
      (host 2)
      50
      (requested (some (host 1)) request lan busy none none 50).store
      (requested (some (host 1)) request lan busy none none 50).reply
      alice_lease
handle_request-Acknowledges_example =
    handle_request-Acknowledges (some (host 1)) request lan busy none none 50 (host 2) alice_lease
      busy-IsValid our_server wants_own no_static (busy-alice, alice_id, inr refl)

handle_request-Answer_example :
    Answer
      (some (host 1))
      request
      lan
      busy
      none
      none
      50
      (requested (some (host 1)) request lan busy none none 50)
handle_request-Answer_example =
    handle_request-Answer (some (host 1)) request lan busy none none 50 busy-IsValid
