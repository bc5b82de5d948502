-- ===== src/Temporal/Client.antt =====
-- app/temporal/client.py: what `create_client` asks of Temporal's library. The tracing interceptor is
-- always among the interceptors.
use temporal_agent_sandbox.Prelude.{Text, codes, List, [], ◌∷◌}
use temporal_agent_sandbox.Config.{Settings}

pub record Connection : Type 0 where
  pub host : Text
  pub namespace : Text
  pub interceptors : List Text

-- the arguments of `Client.connect`
abbrev pub create_client : Settings → Connection
create_client s = record {
  host = s.temporal_host;
  namespace = s.temporal_namespace;
  interceptors = codes "TracingInterceptor" ∷ [];
}
