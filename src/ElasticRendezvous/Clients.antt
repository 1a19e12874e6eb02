-- ===== src/ElasticRendezvous/Clients.antt =====
-- horovod/runner/elastic/rendezvous.py: the addresses that a worker puts under its key.
use horovod.Common.{ℕ, String, Option, none, some, host_key, slot_key}
use horovod.Common.Dict.{insert}
use horovod.Rendezvous as Rendezvous
use horovod.Rendezvous.{Bytes, scope_or_empty}
use horovod.DriverService.{Addresses}
use horovod.Driver.{ElasticDriver}
use horovod.ElasticRendezvous.{put_value}

-- The driver and the store after a PUT whose client has these addresses, if any.
abbrev pub put_client :
    String → ℕ → String → Bytes → Option Addresses → ElasticDriver → Option ElasticDriver
put_client host n key v none d = none
put_client host n key v (some client) d = some (record d {
  worker_clients = insert (host, n) client d.worker_clients;
  rendezvous = Rendezvous.put_value "worker_addresses" key v d.rendezvous;
})
