-- ===== src/Devnet/ServiceImage.antt =====
-- devnet/service_image.go and devnet/pause.go: the Docker containers behind the services of a
-- network. The Docker client's answers are a record.
use qrl_tests.Prelude.{
  ℕ, String, Bool, true, false, ◌&&◌, ◌||◌, Option, none, some, List, [], ◌∷◌, ◌==◌, leb, length,
  str_eq, if◌then◌else◌,
}
use qrl_tests.Prelude.Text.{◌<>◌, quoted, codes, cut_prefix, trim_space, decimal}
use qrl_tests.Errors.{
  Fault, Result, ok, fail, plain, wrapped, within, join_errors, ◌>>=◌, ◌>>◌, checked,
}
use qrl_tests.Devnet.Environment.{Environment, Participant, ServiceInfo, primary}
use qrl_tests.ContainerFiles.{Entry, ArchiveEnd, read_file}

-- `networks` are the networks of the container, in the order of an iteration, each with the address
-- that the container has there; `none` for a nil endpoint. A nil NetworkSettings has none.
pub record Container {ℓ} (Addr : Type ℓ) : Type ℓ where
  pub id : String
  pub image_id : String
  pub networks : List (String × Option Addr)

pub record Docker {ℓ} (Addr : Type ℓ) : Type ℓ where
  pub image_inspect : String → Result String
  pub container_list : String → Result (List (Container Addr))
  pub copy_from_container : String → String → Result (List Entry × ArchiveEnd)
  pub container_pause : String → Option Fault
  pub container_unpause : String → Option Fault
  pub close : Option Fault

-- A hexadecimal digit.
unfoldable pub is_hex : ℕ → Bool
is_hex c = (leb 48 c && leb c 57) || (leb 97 c && leb c 102) || (leb 65 c && leb c 70)

unfoldable pub all_hex : List ℕ → Bool
unfolding is_hex
all_hex [] = true
all_hex (c ∷ rest) = is_hex c && all_hex rest

-- validSHA256ID. The characters that hex.DecodeString takes are single bytes, so the length in bytes
-- is the number of characters wherever it decides.
unfoldable pub valid_sha256_id : String → Bool
unfolding all_hex cut_prefix
valid_sha256_id value = elim (cut_prefix value "sha256:") [
  | none ↦ false
  | some encoded ↦ length (codes encoded) == 64 && all_hex (codes encoded)
]

-- The image ID, trimmed and checked.
unfoldable pub checked_image_id : String → Result String
unfolding valid_sha256_id trim_space
checked_image_id given =
    let image_id = trim_space given in
    if valid_sha256_id image_id
    then ok image_id
    else fail (plain ("invalid Docker image ID " <> quoted image_id))

abbrev pub service_uuid_label : String
service_uuid_label = "com.kurtosistech.guid"

-- primaryServiceID
unfoldable pub primary_service_id : Environment → String → (Participant → String) → Result String
unfolding trim_space
primary_service_id environment role service_id =
    within "select primary participant" (primary environment) >>= λ participant.
    (let id = trim_space (service_id participant) in
      if str_eq id "" then fail (plain ("primary " <> role <> " service has no ID")) else ok id)

module _ {ℓ} {Addr : Type ℓ} where
  unfoldable pub only_container : String → List (Container Addr) → Result (Container Addr)
  only_container service_id (container ∷ []) = ok container
  only_container service_id containers = fail (
      plain (
        "expected one running Docker container for service "
        <> quoted service_id
        <> ", found "
        <> decimal (length containers)))

  -- serviceContainer
  unfoldable pub service_container : Docker Addr → String → Result (Container Addr)
  unfolding only_container
  service_container client service_id =
      client.container_list (service_uuid_label <> "=" <> service_id) >>= λ containers.
      only_container service_id containers

  unfoldable pub resolve_local_image : Docker Addr → String → Result String
  unfolding checked_image_id
  resolve_local_image client image_reference =
      within ("inspect image " <> quoted image_reference) (client.image_inspect image_reference)
      >>= λ id. checked_image_id id

  unfoldable pub resolve_container_image : Docker Addr → String → String → Result String
  unfolding service_container checked_image_id
  resolve_container_image client service_id role =
      within ("find primary " <> role <> " container") (service_container client service_id)
      >>= λ container. checked_image_id container.image_id

  -- resolvePrimaryServiceImage, for what dockerapi.New answers
  unfoldable pub resolve_primary_service_image :
      Result (Docker Addr) → Environment → String → (Participant → String) → Result String
  unfolding primary_service_id resolve_container_image
  resolve_primary_service_image new_client environment role service_id =
      primary_service_id environment role service_id >>= λ id.
      (within "create Docker client" new_client >>= λ client.
      resolve_container_image client id role)

  unfoldable pub resolve_execution_image : Result (Docker Addr) → Environment → Result String
  unfolding resolve_primary_service_image
  resolve_execution_image new_client environment =
      resolve_primary_service_image new_client environment "execution"
        (λ participant. participant.execution.info.id)

  unfoldable pub resolve_consensus_image : Result (Docker Addr) → Environment → Result String
  unfolding resolve_primary_service_image
  resolve_consensus_image new_client environment =
      resolve_primary_service_image new_client environment "consensus"
        (λ participant. participant.consensus.info.id)

  unfoldable pub resolve_validator_image : Result (Docker Addr) → Environment → Result String
  unfolding resolve_primary_service_image
  resolve_validator_image new_client environment =
      resolve_primary_service_image new_client environment "validator"
        (λ participant. participant.validator.info.id)

  -- ReadServiceFile
  unfoldable pub read_service_file : Docker Addr → String → String → Result (List ℕ)
  unfolding service_container read_file
  read_service_file client service_id file_path =
      within "find container" (service_container client service_id) >>= λ container.
      read_file client.copy_from_container container.id file_path

  unfoldable pub network_with :
      (Addr → Addr → Bool) → Addr → List (String × Option Addr) → Option String
  network_with same private_ip [] = none
  network_with same private_ip ((name, none) ∷ rest) = network_with same private_ip rest
  network_with same private_ip ((name, some address) ∷ rest) =
      if same address private_ip then some name else network_with same private_ip rest

  -- ServiceNetwork. `parse` is netip.ParseAddr, `same` the equality of addresses, and `show` how an
  -- address is printed.
  unfoldable pub service_network :
      (String → Result Addr)
      → (Addr → Addr → Bool)
      → (Addr → String)
      → Docker Addr
      → ServiceInfo
      → Result String
  unfolding service_container network_with trim_space
  service_network parse same show client service =
      within ("service " <> quoted service.name <> " private IP")
        (parse (trim_space service.private_ip))
      >>= λ private_ip.
          (within "find container" (service_container client service.id) >>= λ container.
          (elim (network_with same private_ip container.networks) [
            | some name ↦ ok name
            | none ↦ fail (
                plain (
                  "service "
                  <> quoted service.name
                  <> " has no Docker network with its private IP "
                  <> show private_ip))
          ]))

  -- pauseService: the resume that it returns is the container to unpause
  unfoldable pub pause_service : Docker Addr → String → Result String
  unfolding service_container
  pause_service client service_id =
      within "find container" (service_container client service_id) >>= λ container.
      (checked
          (wrapped ("pause service " <> quoted service_id) (client.container_pause container.id))
        >> ok container.id)

  -- The resume of PauseService, which also closes the client.
  unfoldable pub resume_service : Docker Addr → String → String → Option Fault
  resume_service client service_id container_id = join_errors (
      wrapped ("resume service " <> quoted service_id) (client.container_unpause container_id)
      ∷ client.close
      ∷ [])
