-- ===== src/Engine/Payload.antt =====
-- src/core/engine.cpp: `BuildPayload`.
use titan_bench.Base.{true, [], Bytes, codes}
use titan_bench.Cli.Options.{Protocol, k_http, k_https, k_tcp, k_udp, Config}
use titan_bench.Http.Message.{build_get_request}

payload_of : Protocol → Config → Bytes
payload_of k_http config =
    build_get_request
      (record { host = config.host; path = config.path; headers = []; keep_alive = true })
payload_of k_tcp config = codes "titanbench tcp payload"
payload_of k_udp config = codes "titanbench udp payload"
payload_of k_https config = []

unfoldable pub build_payload : Config → Bytes
unfolding payload_of
build_payload config = payload_of config.protocol config
