-- ===== src/Dashboard.antt =====
-- plugins/dashboard/dashboard.go: what the dashboard shows of the subnets, and the events that it
-- passes on. A client's stream is in Dashboard/Stream. The HTTP server, the page and the encoding as
-- JSON are left out.
pub mod Totals
pub mod Stream
use mydhcp.Common.{
  ℕ, ◌+◌, ◌-◌, List, [], ◌∷◌, ◌++◌, Option, some, none, ltb, if◌then◌else◌, length, map, text_eq,
  nat_eq, ite, ◌=?◌,
}
use mydhcp.Common.Maps.{Map, insert, delete}
use mydhcp.Net.{Ip, ip_to_uint32}
use mydhcp.Plugin.{EventType, LeaseEvent}
use mydhcp.Store.Sweep.{leases, occupied_count}
use mydhcp.Subnet.{Config, Entry, Manager, get, configs, is_unspecified}
use mydhcp.Text.{dotted}
use mydhcp.Dhcp.Reply.{ip_text}
use mydhcp.Api.Parse.{Parsers}
use mydhcp.Api.Answer.{LeaseResponse, network_text}
use mydhcp.Api.Subnets.{lease_to_response}

-- A subnet with its lease time, which is shown as a duration's text.
pub record SubnetInfo : Type 0 where
  pub name : List ℕ
  pub network : List ℕ
  pub router : List ℕ
  pub lease_time : ℕ
  pub total : ℕ
  pub occupied : ℕ

-- countRange
unfoldable pub count_range : Option Ip → Option Ip → ℕ
count_range none end = 0
count_range (some start) none = 0
count_range (some start) (some end) =
    if ltb (ip_to_uint32 end) (ip_to_uint32 start)
    then 0
    else ip_to_uint32 end - ip_to_uint32 start + 1

unfoldable pub subnet_info : Config → Entry → SubnetInfo
unfolding count_range
subnet_info cfg e = record {
  name = cfg.name;
  network = network_text cfg.network;
  router = ip_text cfg.router;
  lease_time = cfg.lease_time;
  total = count_range cfg.range_start cfg.range_end;
  occupied = occupied_count e.mem;
}

-- The loop of handleState; leaseInfo has the fields and the texts of the API's lease response.
unfoldable pub state_from : Parsers → Manager → List Config → List SubnetInfo × List LeaseResponse
unfolding subnet_info
state_from p m [] = ([], [])
state_from p m (cfg ∷ cfgs) =
    let later = state_from p m cfgs in
    elim (get m cfg.name) [
      | none ↦ later
      | some e ↦ (
        subnet_info cfg e ∷ later.0,
        map (lease_to_response p cfg.name) (leases e.mem) ++ later.1,
      )
    ]

unfoldable pub handle_state : Parsers → Manager → List SubnetInfo × List LeaseResponse
unfolding state_from
handle_state p m = state_from p m (configs m)

-- The clients of the event stream: a channel, under a number that stands for it, with the events
-- that wait in it.
abbrev pub Clients : Type 0
Clients = Map ℕ (List (List ℕ))

unfoldable pub subscribe : ℕ → Clients → Clients
subscribe ch clients = insert ch [] clients

unfoldable pub unsubscribe : ℕ → Clients → Clients
unsubscribe ch clients = delete ch clients

-- `select { case ch <- data: default: }` on a channel for 32 events.
unfoldable pub push : List (List ℕ) → List ℕ → List (List ℕ)
push queue bytes = if ltb (length queue) 32 then queue ++ bytes ∷ [] else queue

unfoldable pub broadcast : Clients → List ℕ → Clients
unfolding push
broadcast [] bytes = []
broadcast ((ch, queue) ∷ clients) bytes = (ch, push queue bytes) ∷ broadcast clients bytes

-- The event that the page gets. An event without a relay, or with 0.0.0.0, has no `gi_addr`.
pub record EventInfo : Type 0 where
  pub kind : EventType
  pub timestamp : List ℕ
  pub ip : List ℕ
  pub client_id : List ℕ
  pub subnet_name : List ℕ
  pub subnet_cidr : List ℕ
  pub expires_at : List ℕ
  pub gi_addr : Option (List ℕ)

-- formatTime, with the formatting of a time in RFC 3339.
unfoldable pub format_time : (ℕ → List ℕ) → ℕ → List ℕ
format_time rfc3339 t = ite (t =? 0) [] (rfc3339 t)

unfoldable pub gi_addr_text : Option Ip → Option (List ℕ)
unfolding is_unspecified
gi_addr_text none = none
gi_addr_text (some a) = if is_unspecified a then none else some (dotted a)

-- The map of OnLeaseEvent; a timestamp has nanoseconds.
unfoldable pub event_info : (ℕ → List ℕ) → (ℕ → List ℕ) → ℕ → LeaseEvent → EventInfo
unfolding format_time gi_addr_text
event_info rfc3339 rfc3339_nano now ev = record {
  kind = ev.kind;
  timestamp = rfc3339_nano now;
  ip = dotted ev.ip;
  client_id = ev.client_id;
  subnet_name = ev.subnet_name;
  subnet_cidr = network_text ev.subnet_cidr;
  expires_at = format_time rfc3339 ev.expires_at;
  gi_addr = gi_addr_text ev.gi_addr;
}

-- OnLeaseEvent, with the encoding of an event or its failure.
unfoldable pub on_lease_event :
    (EventInfo → Option (List ℕ)) → (ℕ → List ℕ) → (ℕ → List ℕ) → ℕ → Clients → LeaseEvent → Clients
unfolding event_info broadcast
on_lease_event marshal rfc3339 rfc3339_nano now clients ev =
    elim (marshal (event_info rfc3339 rfc3339_nano now ev)) [
      | none ↦ clients
      | some bytes ↦ broadcast clients bytes
    ]
