-- ===== src/DockerApi.antt =====
-- internal/dockerapi: which Docker endpoint is used. The environment and the files are functions;
-- the store of contexts, the TLS files and the client constructor of Docker's packages are
-- parameters.
use qrl_tests.Prelude.{
  String, Bool, not, ◌&&◌, ◌||◌, Option, none, some, [], ◌∷◌, str_eq, if◌then◌else◌,
}
use qrl_tests.Prelude.Text.{◌<>◌, quoted}
use qrl_tests.Prelude.FilePaths.{join_path}
use qrl_tests.Errors.{Result, ok, fail, within, ◌>>=◌}
use qrl_tests.JsonFile.{Files, read}
use qrl_tests.Devnet.Images.{or_text}

abbrev pub default_context_name : String
default_context_name = "default"

-- What the package takes from its surroundings. `is_missing` tells that os.Stat answers an error
-- that is os.ErrNotExist; `user_home` is the home directory of the current user, if it is known, and
-- `on_windows` the test of the operating system. `override_host`, `tls_verify` and
-- `override_cert_path` are the names that Docker's client package gives to variables.
pub record Surroundings : Type 0 where
  pub getenv : String → String
  pub override_host : String
  pub tls_verify : String
  pub override_cert_path : String
  pub is_missing : String → Bool
  pub home_directory : String
  pub user_home : Option String
  pub on_windows : Bool
  pub files : Files
  pub decode_config : String → Result String

-- An endpoint, `TlsData` being Docker's type of TLS material.
pub record Endpoint {ℓ} (TlsData : Type ℓ) : Type ℓ where
  pub host : String
  pub skip_tls_verify : Bool
  pub tls_data : Option TlsData

-- What Docker's packages answer: the parsing of a host, the material in three files, and the
-- metadata, the endpoint and the material of a named context.
pub record DockerPackages {ℓ} (TlsData Metadata : Type ℓ) : Type ℓ where
  pub parse_host : Bool → String → Result String
  pub tls_data_from_files : String → String → String → Result TlsData
  pub get_metadata : String → String → Result Metadata
  pub endpoint_from_context : Metadata → Result (Endpoint TlsData)
  pub with_tls_data : String → String → Endpoint TlsData → Result (Endpoint TlsData)

abbrev pub is_set : String → Bool
is_set value = not (str_eq value "")

abbrev pub or_unknown : Option String → String
or_unknown none = ""
or_unknown (some home) = home

-- currentContext
unfoldable pub current_context : Surroundings → String → String
unfolding or_text
current_context surroundings configured =
    if is_set (surroundings.getenv surroundings.override_host)
    then default_context_name
    else or_text (surroundings.getenv "DOCKER_CONTEXT") (or_text configured default_context_name)

-- optionalFile
unfoldable pub optional_file : Surroundings → String → String
optional_file surroundings path = if surroundings.is_missing path then "" else path

-- configDirectory
unfoldable pub config_directory : Surroundings → String
unfolding join_path
config_directory surroundings =
    let directory = surroundings.getenv "DOCKER_CONFIG" in
    let home =
      if not (is_set surroundings.home_directory) && not surroundings.on_windows
      then or_unknown surroundings.user_home
      else surroundings.home_directory in
    if is_set directory then directory else join_path (home ∷ ".docker" ∷ [])

-- loadConnectionConfig: the current context of the configuration, empty for one that cannot be read
unfoldable pub load_connection_config : Surroundings → String → String
unfolding read join_path
load_connection_config surroundings directory =
    elim (read surroundings.files surroundings.decode_config
      (join_path (directory ∷ "config.json" ∷ [])) "Docker configuration") [
        | fail e ↦ ""
        | ok current ↦ current
      ]

abbrev pub tls_enabled : Surroundings → Bool
tls_enabled surroundings =
    is_set (surroundings.getenv "DOCKER_TLS")
    || is_set (surroundings.getenv surroundings.tls_verify)

module _ {ℓ} {TlsData Metadata : Type ℓ} (packages : DockerPackages TlsData Metadata) where
  -- The TLS material below the certificate directory.
  unfoldable pub certificates : Surroundings → String → Result TlsData
  unfolding optional_file join_path or_text
  certificates surroundings config_dir =
      let directory = or_text (surroundings.getenv surroundings.override_cert_path) config_dir in
      packages.tls_data_from_files (join_path (directory ∷ "ca.pem" ∷ []))
        (optional_file surroundings (join_path (directory ∷ "cert.pem" ∷ [])))
        (optional_file surroundings (join_path (directory ∷ "key.pem" ∷ [])))

  -- defaultEndpoint
  unfoldable pub default_endpoint : Surroundings → String → Result (Endpoint TlsData)
  unfolding certificates
  default_endpoint surroundings config_dir =
      packages.parse_host (tls_enabled surroundings)
        (surroundings.getenv surroundings.override_host)
      >>= λ host.
          (let endpoint : Endpoint TlsData = record {
            host = host;
            skip_tls_verify =
                tls_enabled surroundings
                && not (is_set (surroundings.getenv surroundings.tls_verify));
            tls_data = none;
          } in
            if tls_enabled surroundings
            then (certificates surroundings config_dir >>= λ material.
                ok (record endpoint { tls_data = some material }))
            else ok endpoint)

  -- The endpoint of a context that has a name of its own.
  unfoldable pub named_endpoint : String → String → Result (Endpoint TlsData)
  named_endpoint store name =
      within ("load Docker context " <> quoted name) (packages.get_metadata store name)
      >>= λ metadata.
          (within ("load Docker context " <> quoted name <> " endpoint")
              (packages.endpoint_from_context metadata)
            >>= λ endpoint.
                within ("load Docker context " <> quoted name <> " TLS data")
                  (packages.with_tls_data store name endpoint))

  -- resolveEndpoint
  unfoldable pub resolve_endpoint : Surroundings → String → String → Result (Endpoint TlsData)
  unfolding current_context default_endpoint named_endpoint join_path
  resolve_endpoint surroundings config_dir configured =
      let name = current_context surroundings configured in
      if str_eq name default_context_name
      then default_endpoint surroundings config_dir
      else named_endpoint (join_path (config_dir ∷ "contexts" ∷ [])) name

  -- New, with `client_of` for the options of the endpoint and the client that they make
  unfoldable pub new_client {κ} :
      {Client Options : Type κ}
      → (Endpoint TlsData → Result Options)
      → (Options → Result Client)
      → Surroundings
      → Result Client
  unfolding resolve_endpoint config_directory load_connection_config
  new_client client_opts make surroundings =
      let directory = config_directory surroundings in
      within "resolve Docker endpoint"
        (resolve_endpoint surroundings directory (load_connection_config surroundings directory))
      >>= λ endpoint.
          (within "configure Docker endpoint" (client_opts endpoint) >>= λ options.
          within "create Docker client" (make options))
