-- ===== src/Lib.antt =====
-- A DHCP server with static reservations and zero-touch provisioning: the lease stores, the
-- subnets, the packets, the messages' handlers, the device records, the TFTP server, the relay, the
-- HTTP API, the commands and the dashboard.
--
-- The leases are in Lease (internal/lease/lease.go) and the lease stores in Store
-- (internal/store/memory.go): Store/Defs has a store's state, Store/Ops the methods that the
-- handlers call, Store/Sweep the constructor and the methods that visit every lease, Store/Calls a
-- call as data. Store/Table is the abstract view of a store: its leases by address without the
-- heap's cells, the address that each client has now, and how often an address is in the pool, with
-- what each call may do to them. Subnet (internal/subnet/manager.go) has the subnets with their
-- configurations and stores; networks and BroadcastAddr are in Net/Cidr.
--
-- Ztp is internal/ztp: Ztp/Defs has the device and profile stores, Ztp/Ops the manager's
-- operations, Ztp/Render what RenderConfig gives to the template library, and Tftp the TFTP server
-- (internal/ztp/tftp.go).
--
-- Dhcp is internal/dhcp: Dhcp/Options (options.go), Dhcp/Packet (packet.go), Dhcp/Handler and
-- Dhcp/Reply (handler.go: Dispatch and the handler of each message; the replies and the events),
-- Dhcp/Server (server.go: handlePacket, sendReply and the reaper's sweep) and Dhcp/Server/Loop (the
-- loop of Run over the results of its reads). Plugin has the events of
-- internal/plugin/plugin.go, Plugin/Registry the registry of registry.go, and Plugin/AuditLog the
-- audit log with its file (plugins/auditlog/auditlog.go).
--
-- Api is internal/api: Api/Parse reads the texts of a subnet, of a request (parseSubnetConfig) and
-- of the configuration file (configToSubnet of cmd/mydhcp/main.go); Api/Answer has the responses,
-- Api/Subnets and Api/Devices the handlers of handlers.go, Api/Routes the routes of server.go.
-- Config is the check of internal/config/config.go, Config/Load the whole configuration with its
-- defaults and Load. System is the server command (cmd/mydhcp/main.go): it checks the
-- configuration, adds the subnets, and then datagrams, sweeps and API requests are steps in any
-- order; System/Boot has the subcommands and serve from the configuration file on, with the plugins,
-- and System/Serve joins the two. Relay is internal/relay/relay.go, with the loop of an interface
-- in Relay/Loop and runRelay of the server command in Relay/Command. Dashboard is
-- plugins/dashboard/dashboard.go, with handleSSE in Dashboard/Stream.
--
-- Client is cmd/dhcpclient/main.go. Client/World is what a scenario needs of the outside, the
-- socket and the random numbers, as operations on a state; Client/Scenarios has recv, mustDiscover,
-- mustRequest and the scenarios over such a world, and Client/Command main with its flags.
-- Client/Network is the world in which handlePacket of the server answers. Client/Wire and
-- Client/Release have the client's single messages at the server, Client/Steps the exchange of
-- DISCOVER and REQUEST, and Client/Session and Client/Return whole scenarios in that world.
-- Client/Flood is the flood: the dispatcher's channels, a client's exchange and the count of the
-- results. Tftp/Buffer is the loop of ServeTFTP with its one buffer. Net has addresses, Text the
-- texts that the program builds, Common what all files share, and Tests applies the theorems to a
-- small network.
--
-- How the program's state corresponds to the model. A call takes the state and returns the new
-- one with the result; an error is a value, and so is a handler's dereference of nil. The pointers
-- to leases that the two maps of a store share are numbers of cells of a heap, and an allocated
-- cell is never reused. A Go map is an association list, whose order stands for the order in which
-- a loop visits the map. A byte or a wider integer is a natural number, with the wrap-around
-- written out where the code can reach it. An address is four numbers; nil, and an address that is
-- no IPv4 address, is `none`, and an IPv4 address in its sixteen-byte form is its four bytes. A
-- string is the list of its bytes. The time is a number that each call is given, and 0 is the zero
-- time; the two readings of the clock in one branch of Allocate are one. A duration is a natural
-- number, so a negative one is outside of the model, and so is a subnet with an IPv6 network. The
-- lease time in a reply is the duration's whole seconds modulo 2 ^ 32: Seconds and its conversion
-- to 32 bits go over a float64, which is the same for a duration of whole seconds below 2 ^ 32, but
-- can round a fraction up for a long one, and leaves the result to the machine from 2 ^ 32 on.
--
-- Parameters. Go's parsers of addresses, networks and durations are the record Parsers of
-- Api/Parse, and what net documents of them is IsParser of Api/Sound; the template library is
-- Template of Ztp/Render, the file system and the decoding of JSON are Files of Config/Load, the
-- flag package is FlagParser of System/Boot. Only the TFTP server's use of ParseMAC, on six pairs of digits, is
-- written out.
--
-- Fuel. The counter of the loop with which NewMemoryStore fills its pool can wrap around, so
-- `fill` takes fuel and `none` says that it ran out; `add`, the API and the start of the server
-- pass that on. More fuel than there are addresses in the range is meant. The options parser takes
-- as much fuel as there are bytes, since each round takes a byte at least.
--
-- Calls run one at a time, which is what the locks of a store and of the managers give. A step of
-- System is a whole datagram, sweep or request, or one call on a store, which stands for a call of
-- another handler that comes between. Reapers start with Run, and by StartReaper, which is a step of
-- its own since the repository has no call of it. A removed subnet's reaper keeps its old store,
-- which nothing else has, and is left out.
--
-- Not modelled: the opening of sockets, timers, signals, log lines, the encoding as JSON and its
-- decoding, the HTTP library, and the texts of error messages. What a socket
-- gives or a write comes to is an input. The device store in memory accepts every record, so the
-- branch of AddDevice for a refusal is not reached. The variables of a device record are opaque
-- bytes.
pub mod Api
pub mod Common
pub mod Net
pub mod Lease
pub mod Store
pub mod Subnet
pub mod Text
pub mod Ztp
pub mod Plugin
pub mod Dhcp
pub mod Relay
pub mod Config
pub mod Tftp
pub mod Client
pub mod Dashboard
pub mod System
pub mod Tests
