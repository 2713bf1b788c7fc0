-- ===== src/Plugin.antt =====
-- internal/plugin: lease events and the registry that hands them to the plugins.
pub mod Registry
pub mod AuditLog
use mydhcp.Common.{ℕ, List, Option}
use mydhcp.Net.{Ip}
use mydhcp.Net.Cidr.{IpNet}

pub data EventType : Type 0 where
  offered assigned renewed released expired declined : EventType

-- LeaseEvent; the text of the network is the network itself.
pub record LeaseEvent : Type 0 where
  pub kind : EventType
  pub ip : Ip
  pub client_id : List ℕ
  pub client_hw : List ℕ
  pub gi_addr : Option Ip
  pub subnet_name : List ℕ
  pub subnet_cidr : IpNet
  pub expires_at : ℕ
