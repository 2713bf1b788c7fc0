-- ===== src/Client/Scenarios.antt =====
-- cmd/dhcpclient/main.go: the scenario runners, step by step over a world. What a runner returns
-- is the last thing that it logs.
use mydhcp.Common.{ℕ, List, [], Option, some, none}
use mydhcp.Net.{Ip}
use mydhcp.Dhcp.Options.{msg_discover, msg_request, msg_decline, msg_release, msg_type}
use mydhcp.Dhcp.Packet.{Packet}
use mydhcp.Dhcp.Packet.Layout.{or_zero}
use mydhcp.Client.{
  build_discover, build_request, build_decline, build_release, build_renew, accept_ack, bump_ip,
  lease_time,
}
use mydhcp.Client.World.{
  World, no_offer, no_reply, refused, no_renewal, Run, ◌>>=◌, ◌>>◌, done, required, Client, send,
  await, random_xid,
}

-- What a scenario reports. An address is as the packet has it.
pub data Report : Type 0 where
  bound : Option Ip → ℕ → Report
  offered declined released : Option Ip → Report
  answered : Packet → Report
  unexpected : Option ℕ → Report
  unanswered : Report

-- 192.0.2.1
abbrev pub fake_server : Ip
fake_server = record { b0 = 192; b1 = 0; b2 = 2; b3 = 1 }

module _ (w : World) (c : Client) where
  unfoldable pub must_discover : Option Ip → List ℕ → Run w.State Packet
  unfolding send await
  must_discover req_ip vendor = do
    send w c msg_discover (build_discover c.mac c.xid req_ip vendor)
    reply ← await w c.xid
    required no_offer reply

  unfoldable pub must_request : Option Ip → Option Ip → Run w.State Packet
  unfolding send await
  must_request offered_ip server_ip = do
    send w c msg_request (build_request c.mac c.xid server_ip offered_ip [])
    reply ← await w c.xid
    ack ← required no_reply reply
    required refused (accept_ack ack)

  unfoldable pub run_dora : Option Ip → Option Ip → List ℕ → Run w.State Report
  unfolding must_discover must_request
  run_dora server_ip req_ip vendor = do
    offer ← must_discover req_ip vendor
    ack ← must_request offer.yiaddr server_ip
    done (bound ack.yiaddr (lease_time ack))

  unfoldable pub run_discover_only : Option Ip → List ℕ → Run w.State Report
  unfolding must_discover
  run_discover_only req_ip vendor = do
    offer ← must_discover req_ip vendor
    done (offered offer.yiaddr)

  unfoldable pub run_bad_server_id : List ℕ → Run w.State Report
  unfolding must_discover send await
  run_bad_server_id vendor = do
    offer ← must_discover none vendor
    send w c msg_request (build_request c.mac c.xid (some fake_server) offer.yiaddr vendor)
    reply ← await w c.xid
    done (elim reply [ none ↦ unanswered | some pkt ↦ unexpected (msg_type pkt.options) ])

  unfoldable pub run_bad_ip : Option Ip → List ℕ → Run w.State Report
  unfolding must_discover send await
  run_bad_ip server_ip vendor = do
    offer ← must_discover none vendor
    send w c msg_request
        (build_request c.mac c.xid server_ip (some (bump_ip (or_zero offer.yiaddr) 100)) vendor)
    reply ← await w c.xid
    done (elim reply [ none ↦ unanswered | some pkt ↦ answered pkt ])

  unfoldable pub run_decline : Option Ip → List ℕ → Run w.State Report
  unfolding must_discover must_request send
  run_decline server_ip vendor = do
    offer ← must_discover none vendor
    ack ← must_request offer.yiaddr server_ip
    send w c msg_decline (build_decline c.mac c.xid server_ip ack.yiaddr)
    done (declined ack.yiaddr)

  unfoldable pub run_release : Option Ip → List ℕ → Run w.State Report
  unfolding must_discover must_request send
  run_release server_ip vendor = do
    offer ← must_discover none vendor
    ack ← must_request offer.yiaddr server_ip
    send w c msg_release (build_release c.mac c.xid server_ip ack.yiaddr)
    done (released ack.yiaddr)

  unfoldable pub run_renew : Option Ip → List ℕ → Run w.State Report
  unfolding must_discover must_request send await random_xid
  run_renew server_ip vendor = do
    offer ← must_discover none vendor
    ack ← must_request offer.yiaddr server_ip
    xid ← random_xid w
    send w c msg_request (build_renew c.mac xid server_ip ack.yiaddr)
    reply ← await w xid
    pkt ← required no_renewal reply
    done (answered pkt)
