-- ===== src/Config/Encryption.antt =====
-- When a connection uses TLS: internal/cli/config.go and internal/broker/tls.go together.
use mqtt_load_generator.Base.{
  ◌≡◌, ◌≢◌, ◌↔◌, ◌⊎◌, inl, inr, Bool, true, not, ◌||◌, Option, none, some, arith,
}
use mqtt_load_generator.Base.Text.{codes, given}
use mqtt_load_generator.Broker.{
  Options, uses_tls_files, scheme, TlsError, TlsConfig, Files, root_cas_of, certificates_of,
  tls_config_with, build_tls_config,
}
use mqtt_load_generator.Config.{Connection, is_none, validate_connection}
use mqtt_load_generator.Config.BrokerOptions.{to_broker_options}
use mqtt_load_generator.Config.Valid.{validate_connection_iff}

-- The connection is encrypted.
abbrev pub uses_tls : Options → Bool
uses_tls options = uses_tls_files options || options.mqtts

module _ {Pool Certificate : Type 0} (files : Files Pool Certificate) where
  -- What a TLS configuration must hold for the flags of a connection.
  pub record Honours (c : Connection) (config : TlsConfig Pool Certificate) : Type 0 where
    pub verify : config.insecure_skip_verify ≡ c.insecure
    pub ca : is_none config.root_cas ≡ not (given c.tls.ca)
    pub cert : is_none config.certificates ≡ not (given c.tls.cert)

  root_cas-given :
      (o : Options) (pool : Option Pool)
      → root_cas_of files o ≡ inr pool
      → is_none pool ≡ not (given o.tls_ca_file)
  root_cas-given o pool e = ground arith

  certificates-given :
      (o : Options) (certificate : Option Certificate)
      → certificates_of files o ≡ inr certificate
      → is_none certificate ≡ not (given o.tls_cert_file)
  certificates-given o certificate e = ground arith

  config_parts :
      (insecure : Bool) (pool : TlsError ⊎ Option Pool)
      (certificate : TlsError ⊎ Option Certificate) (config : TlsConfig Pool Certificate)
      → tls_config_with files insecure pool certificate ≡ inr (some config)
      → (pool ≡ inr config.root_cas)
        × (certificate ≡ inr config.certificates)
        × (config.insecure_skip_verify ≡ insecure)
  config_parts insecure (inl e) certificate config h = ground arith
  config_parts insecure (inr pool) (inl e) config h = ground arith
  config_parts insecure (inr pool) (inr certificate) config h = ground arith

  config_exists :
      (insecure : Bool) (pool : TlsError ⊎ Option Pool)
      (certificate : TlsError ⊎ Option Certificate)
      → tls_config_with files insecure pool certificate ≢ inr none
  config_exists insecure (inl e) certificate h = ground arith
  config_exists insecure (inr pool) (inl e) h = ground arith
  config_exists insecure (inr pool) (inr certificate) h = ground arith

  -- For settings that `Connection.Validate` accepts no TLS flag is ignored: with any of --mqtts,
  -- --ca, --cert, --key and --insecure the URL is tls://; the URL is tcp:// exactly when
  -- `buildTLSConfig` returns no configuration; and a configuration that it returns skips the check
  -- of the broker's certificate only with --insecure, has a CA pool exactly with --ca and a client
  -- certificate exactly with --cert.
  pub tls_flags_honoured :
      (c : Connection)
      → validate_connection c ≡ none
      → ((c.mqtts ≡ true)
            ⊎ (given c.tls.ca ≡ true)
            ⊎ (given c.tls.cert ≡ true)
            ⊎ (given c.tls.key ≡ true)
            ⊎ (c.insecure ≡ true)
          → scheme (to_broker_options c) ≡ codes "tls")
        × ((scheme (to_broker_options c) ≡ codes "tcp")
            ↔ (build_tls_config files (to_broker_options c) ≡ inr none))
        × ((config : TlsConfig Pool Certificate)
            → build_tls_config files (to_broker_options c) ≡ inr (some config)
            → Honours c config)
  unfolding build_tls_config
  tls_flags_honoured c e =
      let v = (validate_connection_iff c).0 e in
      let o = to_broker_options c in
      let made = config_exists o.insecure (root_cas_of files o) (certificates_of files o) in
      (
        λ flag. ground (arith, v),
        (λ plain. ground (arith, v, plain), λ built. ground (arith, v, made)),
        λ config built.
            let parts =
              config_parts o.insecure (root_cas_of files o) (certificates_of files o) config
                (ground arith) in
            record {
              verify = parts.2;
              ca = root_cas-given o config.root_cas parts.0;
              cert = certificates-given o config.certificates parts.1;
            },
      )
