-- ===== src/Examples/Custom.antt =====
-- The server of Examples.Tunnels with a tunnel that has the custom domain "a.b".
use wire_rift.Prelude.{◌≡◌, false, [], ◌∷◌, some, Bytes}
use wire_rift.Server.CustomDomain.{Externals}
use wire_rift.Server.Tunnels.{TunnelRequest, Server, listed}
use wire_rift.Server.Tunnels.Create.{handle_tunnel_request, http_tunnel}
use wire_rift.Server.CustomDomain.{txt_record}
use wire_rift.Prelude.{false}
use wire_rift.Examples.Tunnels.{lib, first, client, request, logged}

abbrev custom_domain : Bytes
custom_domain = 97 ∷ 46 ∷ 98 ∷ []

abbrev name : Bytes
name = 97 ∷ 98 ∷ []

-- The resolver finds the record that proves the domain.
abbrev proving : Externals
proving = record lib { txt_records = λ _. (txt_record lib [] [] []).1 ∷ [] }

abbrev custom_request : TunnelRequest
custom_request = record request { custom_domain = custom_domain }

abbrev hosted : Server
hosted = (handle_tunnel_request proving 6 client (some custom_request) (2 ∷ []) [] logged).1

record HostedFacts : Type 0 where
  lists :
      listed (1 ∷ []) (2 ∷ []) hosted
      ≡ some (http_tunnel 6 client custom_request (2 ∷ []) name custom_domain first.config)
  config : hosted.config ≡ first.config
