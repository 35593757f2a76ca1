-- ===== src/Services/Wiring.antt =====
-- How the services that are started from one base environment and one set of credentials fit
-- together: ports, addresses and certificates.
use microkube.Base.{String, some, ◌≡◌, refl}
use microkube.Base.Bytes.{Bytes}
use microkube.Base.Texts.{◌++◌, itoa}
use microkube.Handlers.Env.{ExecutionEnvironment, copy_information_from_base}
use microkube.Services.Shared.{
  MicrokubeCredentials, Command, HealthCheck, ip_string, HasFlag, here, there,
}
use microkube.Services.Etcd
use microkube.Services.Etcd.{new_etcd_handler}
use microkube.Services.ApiServer
use microkube.Services.ApiServer.{new_kube_api_server_handler}
use microkube.Services.ControllerManager
use microkube.Services.ControllerManager.{new_controller_manager_handler}

-- Etcd listens at a port, trusts the etcd CA and shows the etcd server certificate, to its peers
-- too; the API server and the probe call it there, trust the etcd CA and show the etcd client
-- certificate.
pub record EtcdLink (etcd api : Command) (probe : HealthCheck) (creds : MicrokubeCredentials)
    (port : String) : Type 0 where
  pub listens : HasFlag "--listen-client-urls" ("https://localhost:" ++ port) etcd.args
  pub advertises : HasFlag "--advertise-client-urls" ("https://localhost:" ++ port) etcd.args
  pub calls : HasFlag "--etcd-servers" ("https://127.0.0.1:" ++ port) api.args
  pub probed : probe.endpoint ≡ "https://localhost:" ++ port ++ "/health"
  pub server_ca : HasFlag "--trusted-ca-file" creds.etcd_ca.cert_path etcd.args
  pub server_cert : HasFlag "--cert-file" creds.etcd_server.cert_path etcd.args
  pub server_key : HasFlag "--key-file" creds.etcd_server.key_path etcd.args
  pub peer_ca : HasFlag "--peer-trusted-ca-file" creds.etcd_ca.cert_path etcd.args
  pub peer_cert : HasFlag "--peer-cert-file" creds.etcd_server.cert_path etcd.args
  pub peer_key : HasFlag "--peer-key-file" creds.etcd_server.key_path etcd.args
  pub client_ca : HasFlag "--etcd-cafile" creds.etcd_ca.cert_path api.args
  pub probe_certs : probe.tls ≡ some (creds.etcd_ca, creds.etcd_client)
  pub client_cert : HasFlag "--etcd-certfile" creds.etcd_client.cert_path api.args
  pub client_key : HasFlag "--etcd-keyfile" creds.etcd_client.key_path api.args

-- A kubernetes server binds to an address and a port with its certificate, and is probed there
-- with the client certificate of the same authority.
pub record IsProbedWhereBound (server : Command) (probe : HealthCheck)
    (creds : MicrokubeCredentials) (address port : String) : Type 0 where
  pub bound : HasFlag "--bind-address" address server.args
  pub secured : HasFlag "--secure-port" port server.args
  pub cert : HasFlag "--tls-cert-file" creds.kube_server.cert_path server.args
  pub key : HasFlag "--tls-private-key-file" creds.kube_server.key_path server.args
  pub probed : probe.endpoint ≡ "https://" ++ address ++ ":" ++ port ++ "/healthz"
  pub probe_certs : probe.tls ≡ some (creds.kube_ca, creds.kube_client)

module _ (ipv6_text : Bytes → String) (base e f : ExecutionEnvironment)
    (creds : MicrokubeCredentials) where
  abbrev etcd_env : ExecutionEnvironment
  etcd_env = copy_information_from_base e base

  abbrev api_env : ExecutionEnvironment
  api_env = copy_information_from_base f base

  -- Etcd and the API server, started from environments that were copied from one base: the API
  -- server and the health probe call etcd at the port where it listens, the base's etcd client
  -- port. All three trust the etcd CA; etcd is started with the etcd server certificate and key,
  -- for clients and for peers, and the other two with the etcd client certificate.
  pub etcd_link :
      (service_net : String)
      → EtcdLink
          (Etcd.start (new_etcd_handler etcd_env creds))
          (ApiServer.start (new_kube_api_server_handler ipv6_text api_env creds service_net))
          (new_etcd_handler etcd_env creds).health_check
          creds
          (itoa base.etcd_client_port)
  unfolding Etcd.start new_etcd_handler ApiServer.start new_kube_api_server_handler
      copy_information_from_base
  etcd_link service_net = record {
    listens = search (here, there) depth 40;
    advertises = search (here, there) depth 40;
    calls = search (here, there) depth 40;
    probed = refl;
    server_ca = search (here, there) depth 40;
    server_cert = search (here, there) depth 40;
    server_key = search (here, there) depth 40;
    peer_ca = search (here, there) depth 40;
    peer_cert = search (here, there) depth 40;
    peer_key = search (here, there) depth 40;
    client_ca = search (here, there) depth 40;
    probe_certs = refl;
    client_cert = search (here, there) depth 40;
    client_key = search (here, there) depth 40;
  }

  -- The API server and the controller manager, started from copies of one base environment, are
  -- bound to the base's listen address, each at its own port of the base, and are probed exactly
  -- there.
  pub probed_where_bound :
      (service_net pod_range : String)
      → let address = ip_string ipv6_text base.listen_address in
        let api = new_kube_api_server_handler ipv6_text api_env creds service_net in
        let manager = new_controller_manager_handler ipv6_text etcd_env creds pod_range in
        IsProbedWhereBound
          (ApiServer.start api)
          api.health_check
          creds
          address
          (itoa base.kube_api_port)
        × IsProbedWhereBound
            (ControllerManager.start manager)
            manager.health_check
            creds
            address
            (itoa base.kube_controller_manager_port)
  unfolding ApiServer.start new_kube_api_server_handler copy_information_from_base
      ControllerManager.start new_controller_manager_handler
  probed_where_bound service_net pod_range = (
    record {
      bound = search (here, there) depth 40;
      secured = search (here, there) depth 40;
      cert = search (here, there) depth 40;
      key = search (here, there) depth 40;
      probed = refl;
      probe_certs = refl;
    },
    record {
      bound = search (here, there) depth 40;
      secured = search (here, there) depth 40;
      cert = search (here, there) depth 40;
      key = search (here, there) depth 40;
      probed = refl;
      probe_certs = refl;
    },
  )
