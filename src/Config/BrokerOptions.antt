-- ===== src/Config/BrokerOptions.antt =====
-- `toBrokerOptions` of internal/cli/broker.go.
use mqtt_load_generator.Base.{false}
use mqtt_load_generator.Broker.{Options}
use mqtt_load_generator.Config.{Connection}

-- `ordered` stays off; sub and dump set it afterwards.
abbrev pub to_broker_options : Connection → Options
to_broker_options connection = record {
  host = connection.host;
  port = connection.port;
  username = connection.username;
  password = connection.password;
  clean_session = connection.clean_session;
  keep_alive_seconds = connection.keep_alive_timeout;
  mqtts = connection.mqtts;
  insecure = connection.insecure;
  tls_cert_file = connection.tls.cert;
  tls_key_file = connection.tls.key;
  tls_ca_file = connection.tls.ca;
  ordered = false;
}
