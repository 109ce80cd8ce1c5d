-- ===== src/Broker/Dialing.antt =====
-- What `Dial` of internal/broker/paho.go promises.
use mqtt_load_generator.Base.{
  ◌≡◌, ◌↔◌, ◌⊎◌, inl, inr, refl, Bool, true, false, Option, none, some, arith,
}
use mqtt_load_generator.Base.Text.{Bytes, codes}
use mqtt_load_generator.Broker.{
  Options, scheme, broker_url, TlsError, TlsConfig, Files, tls_config_with, root_cas_of,
  certificates_of, build_tls_config,
}
use mqtt_load_generator.Broker.Dial.{
  ClientOptions, ConnectOutcome, DialError, Dialled, client_options, connected, is_plain, dial_with,
  dial,
}

module _ {Pool Certificate : Type 0} (files : Files Pool Certificate)
    (connect : ClientOptions Pool Certificate → ConnectOutcome) where
  config_made :
      (insecure : Bool) (pool : TlsError ⊎ Option Pool)
      (certificate : TlsError ⊎ Option Certificate) (config : Option (TlsConfig Pool Certificate))
      → tls_config_with files insecure pool certificate ≡ inr config
      → is_plain config ≡ false
  config_made insecure (inl e) certificate config h = ground arith
  config_made insecure (inr pool) (inl e) config h = ground arith
  config_made insecure (inr pool) (inr certificate) config h = ground arith

  pub plain_iff :
      (o : Options) (config : Option (TlsConfig Pool Certificate))
      → build_tls_config files o ≡ inr config
      → (is_plain config ≡ true) ↔ (scheme o ≡ codes "tcp")
  unfolding build_tls_config
  plain_iff o config e =
      let made = config_made o.insecure (root_cas_of files o) (certificates_of files o) config in
      ground (arith, made)

  -- What a connect that was tried tells of the result.
  abbrev pub Agrees :
      Options → Bytes → Dialled Pool Certificate → Option (ClientOptions Pool Certificate) → Type 0
  Agrees o client_id d none =
      (d.disconnected ≡ false) × ((e : TlsError) × (d.result ≡ inl (DialError.tls_error e)))
  Agrees o client_id d (some tried) =
      (tried.broker ≡ broker_url o)
      × ((is_plain tried.tls_config ≡ true) ↔ (scheme o ≡ codes "tcp"))
      × ((d.result ≡ inr client_id) ↔ (connect tried ≡ ConnectOutcome.completed))
      × ((d.disconnected ≡ true) ↔ (connect tried ≡ ConnectOutcome.cancelled))
      × ((d.result ≡ inl (DialError.closed_right_away tried.broker))
          ↔ ((connect tried ≡ ConnectOutcome.failed true) × (is_plain tried.tls_config ≡ true)))

  tried-Agrees :
      (o : Options) (client_id : Bytes) (tried : ClientOptions Pool Certificate)
      (out : ConnectOutcome)
      → connect tried ≡ out
      → tried.broker ≡ broker_url o
      → tried.client_id ≡ client_id
      → ((is_plain tried.tls_config ≡ true) ↔ (scheme o ≡ codes "tcp"))
      → Agrees o client_id (connected tried out) (connected tried out).tried
  tried-Agrees o client_id tried ConnectOutcome.completed e b i p = ground arith
  tried-Agrees o client_id tried (ConnectOutcome.failed is_eof) e b i p = ground arith
  tried-Agrees o client_id tried ConnectOutcome.cancelled e b i p = ground arith

  dial-Agrees :
      (o : Options) (client_id : Bytes) (built : TlsError ⊎ Option (TlsConfig Pool Certificate))
      → build_tls_config files o ≡ built
      → let d = dial_with connect o client_id built in Agrees o client_id d d.tried
  dial-Agrees o client_id (inl error) e = (refl, (error, refl))
  dial-Agrees o client_id (inr config) e =
      let tried = client_options o client_id config in
      tried-Agrees o client_id tried (connect tried) refl refl refl (plain_iff o config e)

  connected_tried :
      (tried : ClientOptions Pool Certificate) (out : ConnectOutcome)
      → (connected tried out).tried ≡ some tried
  connected_tried tried ConnectOutcome.completed = refl
  connected_tried tried (ConnectOutcome.failed is_eof) = refl
  connected_tried tried ConnectOutcome.cancelled = refl

  never_tried :
      (o : Options) (client_id : Bytes) (built : TlsError ⊎ Option (TlsConfig Pool Certificate))
      → build_tls_config files o ≡ built
      → ((dial_with connect o client_id built).tried ≡ none)
        ↔ ((e : TlsError) × (build_tls_config files o ≡ inl e))
  never_tried o client_id (inl error) e = (λ _. (error, e), λ _. refl)
  never_tried o client_id (inr config) e =
      let tried = client_options o client_id config in
      let t = connected_tried tried (connect tried) in
      (λ n. ground (arith, n, t), λ (error, h). ground (arith, e, h))

  -- `Dial` tries no connection when the TLS configuration cannot be built, and reports that. The
  -- connection that it tries goes to the broker's URL, plain exactly when that is tcp://. It returns
  -- a client, with the client ID it was given, exactly when the connect completed; it disconnects
  -- the client itself exactly when the context was cancelled first; and it suggests --mqtts exactly
  -- when a plain connection ended at once.
  pub dial_outcomes :
      (o : Options) (client_id : Bytes)
      → let d = dial files connect o client_id in
        Agrees o client_id d d.tried
        × ((d.tried ≡ none) ↔ ((e : TlsError) × (build_tls_config files o ≡ inl e)))
  unfolding dial
  dial_outcomes o client_id = (
    dial-Agrees o client_id (build_tls_config files o) refl,
    never_tried o client_id (build_tls_config files o) refl,
  )
