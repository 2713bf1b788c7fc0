-- ===== src/Api/Subnets.antt =====
-- The endpoints for subnets and leases of internal/api/handlers.go.
use mydhcp.Common.{
  ℕ, List, [], ◌∷◌, ◌++◌, Option, some, none, ite, ◌=?◌, text_eq, nat_eq, ok, err, map,
}
use mydhcp.Lease.{Lease}
use mydhcp.Store.Sweep.{leases, occupied_count, occupied_by_state}
use mydhcp.Subnet.{
  Error, not_found, already_exists, overlap, has_occupied, Config, Entry, Manager, add, remove, get,
  configs,
}
use mydhcp.Text.{dotted}
use mydhcp.Dhcp.Reply.{ip_text}
use mydhcp.Api.Parse.{Parsers, SubnetRequest, parse_subnet_config}
use mydhcp.Api.Answer.{
  Program, SubnetResponse, LeaseResponse, Response, Body, answers, write_error, state_text,
  network_text,
}

-- An entry's occupied count, or 0 where the subnet is gone.
unfoldable pub occupied_of : Option Entry → ℕ
occupied_of none = 0
occupied_of (some e) = occupied_count e.mem

unfoldable pub subnet_to_response : Manager → Config → SubnetResponse
unfolding occupied_of
subnet_to_response m cfg = record {
  name = cfg.name;
  network = network_text cfg.network;
  router = ip_text cfg.router;
  occupied_count = occupied_of (get m cfg.name);
}

unfoldable pub list_subnets : Manager → Response
unfolding subnet_to_response
list_subnets m = answers 200 (Body.subnets (map (subnet_to_response m) (configs m)))

unfoldable pub add_status : Error → ℕ
add_status already_exists = 409
add_status overlap = 409
add_status not_found = 422
add_status has_occupied = 422

-- addSubnet; `none` for a body that does not decode. It does not return where Add does not.
unfoldable pub add_subnet :
    Parsers → ℕ → Program → Option SubnetRequest → Option (Program × Response)
unfolding add_status
add_subnet p fuel st none = some (st, write_error 400)
add_subnet p fuel st (some req) = elim (parse_subnet_config p req) [
  | err e ↦ some (st, write_error 422)
  | ok cfg ↦ elim (add fuel st.subnets cfg) [
    | none ↦ none
    | some (m, r) ↦ some (
      record st { subnets = m },
      elim r [ ok u ↦ answers 201 (Body.created cfg.name) | err e ↦ write_error (add_status e) ],
    )
  ]
]

-- The answer of deleteSubnet to an error of Remove.
unfoldable pub refuse_delete : Manager → List ℕ → Error → Response
refuse_delete m name not_found = write_error 404
refuse_delete m name has_occupied = elim (get m name) [
  | some e ↦
      let (reserved, offered, bound) = occupied_by_state e.mem in
      answers 409 (Body.occupied reserved offered bound)
  | none ↦ write_error 409
]
refuse_delete m name already_exists = write_error 500
refuse_delete m name overlap = write_error 500

unfoldable pub delete_subnet : Program → List ℕ → Program × Response
unfolding refuse_delete
delete_subnet st name =
    ite (name =? []) (st, write_error 400)
      (let (m, r) = remove st.subnets name in
        (
          record st { subnets = m },
          elim r [ ok u ↦ answers 204 Body.empty | err e ↦ refuse_delete m name e ],
        ))

-- `if !t.IsZero() { s = t.UTC().Format(...) }`
unfoldable pub time_text : Parsers → ℕ → List ℕ
time_text p t = ite (t =? 0) [] (p.format t)

unfoldable pub lease_to_response : Parsers → List ℕ → Lease → LeaseResponse
unfolding time_text
lease_to_response p name l = record {
  ip = dotted l.ip;
  client_id = l.client_id;
  state = state_text l.state;
  subnet_name = name;
  offered_at = time_text p l.offered_at;
  bound_at = time_text p l.bound_at;
  expires_at = time_text p l.expires_at;
}

unfoldable pub leases_of : Parsers → List ℕ → Option Entry → List LeaseResponse
unfolding lease_to_response
leases_of p name none = []
leases_of p name (some e) = map (lease_to_response p name) (leases e.mem)

-- The loop of listLeases over the configurations.
unfoldable pub list_from : Parsers → Manager → List ℕ → List Config → List LeaseResponse
unfolding leases_of
list_from p m filter [] = []
list_from p m filter (cfg ∷ cfgs) =
    let mine = leases_of p cfg.name (get m cfg.name) in
    ite (filter =? []) mine (ite (cfg.name =? filter) mine []) ++ list_from p m filter cfgs

unfoldable pub list_leases : Parsers → Manager → List ℕ → Response
unfolding list_from
list_leases p m filter = answers 200 (Body.leases (list_from p m filter (configs m)))
