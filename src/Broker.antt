-- ===== src/Broker.antt =====
-- internal/broker: the TLS settings, the URL and the client options that a connection is made with.
pub mod Dial
pub mod Dialing
use mqtt_load_generator.Base.{
  if◌then◌else◌, Bool, not, ◌&&◌, ◌||◌, ℤ, ◌++◌, Option, none, some, ◌⊎◌, inl, inr,
}
use mqtt_load_generator.Base.Text.{Bytes, codes, append_int, given}

pub record Options : Type 0 where
  pub host : Bytes
  pub port : ℤ
  pub username : Bytes
  pub password : Bytes
  pub clean_session : Bool
  pub keep_alive_seconds : ℤ
  pub mqtts : Bool
  pub insecure : Bool
  pub tls_cert_file : Bytes
  pub tls_key_file : Bytes
  pub tls_ca_file : Bytes
  pub ordered : Bool

abbrev pub uses_tls_files : Options → Bool
uses_tls_files options =
    given options.tls_cert_file && given options.tls_key_file && given options.tls_ca_file

abbrev pub scheme : Options → Bytes
scheme options = if uses_tls_files options || options.mqtts then codes "tls" else codes "tcp"

unfoldable pub broker_url : Options → Bytes
broker_url options =
    scheme options ++ (codes "://" ++ (options.host ++ (codes ":" ++ append_int options.port)))

pub data TlsError : Type 0 where
  reading_ca_file no_usable_certificates : Bytes → TlsError
  loading_key_pair : TlsError

-- The fields of `tls.Config` that the code sets.
pub record TlsConfig (Pool Certificate : Type 0) : Type 0 where
  pub insecure_skip_verify : Bool
  pub root_cas : Option Pool
  pub certificates : Option Certificate

-- The file system, and the parsers of crypto/x509 and crypto/tls; `none` is an error.
pub record Files (Pool Certificate : Type 0) : Type 0 where
  pub read_file : Bytes → Option Bytes
  pub certs_from_pem : Bytes → Option Pool
  pub load_key_pair : Bytes → Bytes → Option Certificate

module _ {Pool Certificate : Type 0} (files : Files Pool Certificate) where
  abbrev pub certs_of_file : Bytes → Option Bytes → TlsError ⊎ Pool
  certs_of_file ca_file none = inl (TlsError.reading_ca_file ca_file)
  certs_of_file ca_file (some contents) = elim (files.certs_from_pem contents) [
    | none ↦ inl (TlsError.no_usable_certificates ca_file)
    | some pool ↦ inr pool
  ]

  abbrev pub load_ca_certificate_pool : Bytes → TlsError ⊎ Pool
  load_ca_certificate_pool ca_file = certs_of_file ca_file (files.read_file ca_file)

  -- The pool of `--ca`, where it was given.
  abbrev pub root_cas_of : Options → TlsError ⊎ Option Pool
  root_cas_of options =
      if given options.tls_ca_file
      then elim (load_ca_certificate_pool options.tls_ca_file) [
        | inl error ↦ inl error
        | inr pool ↦ inr (some pool)
      ]
      else inr none

  -- The client certificate of `--cert` and `--key`, where they were given.
  abbrev pub certificates_of : Options → TlsError ⊎ Option Certificate
  certificates_of options =
      if given options.tls_cert_file
      then elim (files.load_key_pair options.tls_cert_file options.tls_key_file) [
        | none ↦ inl TlsError.loading_key_pair
        | some certificate ↦ inr (some certificate)
      ]
      else inr none

  abbrev pub tls_config_with :
      Bool
      → TlsError ⊎ Option Pool
      → TlsError ⊎ Option Certificate
      → TlsError ⊎ Option (TlsConfig Pool Certificate)
  tls_config_with insecure (inl error) certificates = inl error
  tls_config_with insecure (inr root_cas) (inl error) = inl error
  tls_config_with insecure (inr root_cas) (inr certificates) = inr (
      some (record {
        insecure_skip_verify = insecure;
        root_cas = root_cas;
        certificates = certificates;
      }))

  unfoldable pub build_tls_config : Options → TlsError ⊎ Option (TlsConfig Pool Certificate)
  build_tls_config options =
      if not options.mqtts && not (uses_tls_files options)
      then inr none
      else tls_config_with options.insecure (root_cas_of options) (certificates_of options)
