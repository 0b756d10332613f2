-- ===== src/Api/Network.antt =====
-- web/src/lib/api.ts: how to connect to a server, its relay and its forwarded port.
use mirocraft.Prelude.{Bool, ℕ, List, Option, Text, codes}
use mirocraft.Api.Http.{get, post, delete}
use mirocraft.Api.Endpoint.{Endpoint, calls, server_path}

pub data AddressKind : Type 0 where
  public hamachi radmin zerotier tailscale lan virtual reserved loopback : AddressKind

pub data InternetState : Type 0 where
  direct forwarded can_forward taken_by_another carrier_nat no_router : InternetState

pub record ConnectAddress : Type 0 where
  pub address : Text
  pub ip : Text
  pub kind : AddressKind
  pub interface : Text

pub record RelayInfo : Type 0 where
  pub configured : Bool
  pub enabled : Bool
  pub address : Option Text
  pub held_by : Option Text
  pub error : Option Text

pub record Internet : Type 0 where
  pub state : InternetState
  pub external_ip : Option Text
  pub address : Option Text
  pub taken_by : Option Text

pub record ConnectInfo : Type 0 where
  pub port : ℕ
  pub addresses : List ConnectAddress
  pub internet : Internet
  pub relay : RelayInfo

unfoldable pub server_connect : Text → Endpoint
server_connect id = calls get (server_path id (codes "/connect"))

unfoldable pub enable_relay : Text → Endpoint
enable_relay id = calls post (server_path id (codes "/connect/relay"))

unfoldable pub disable_relay : Text → Endpoint
disable_relay id = calls delete (server_path id (codes "/connect/relay"))

unfoldable pub forward_port : Text → Endpoint
forward_port id = calls post (server_path id (codes "/connect/forward"))

unfoldable pub unforward_port : Text → Endpoint
unforward_port id = calls delete (server_path id (codes "/connect/forward"))
