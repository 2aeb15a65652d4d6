-- ===== src/Devnet/Services.antt =====
-- The Service of devnet/internal/kurtosis/enclave.go, and the endpoints that
-- devnet/environment.go reads from it.
use qrl_tests.Prelude.{ℕ, String, List, [], ◌∷◌, str_eq, ◌==◌, any, if◌then◌else◌}
use qrl_tests.Prelude.Text.{◌<>◌, quoted, decimal, codes}
use qrl_tests.Errors.{Result, ok, fail, plain, ◌>>=◌}

-- `public_ports` and `labels` are maps: a missing key reads as 0 and as the empty text.
pub record Service : Type 0 where
  pub uuid : String
  pub private_ip : String
  pub public_ip : String
  pub public_ports : List (String × ℕ)
  pub labels : List (String × String)

unfoldable pub port_of : String → List (String × ℕ) → ℕ
port_of key [] = 0
port_of key ((k, port) ∷ rest) = if str_eq k key then port else port_of key rest

unfoldable pub label_of : String → List (String × String) → String
label_of key [] = ""
label_of key ((k, label) ∷ rest) = if str_eq k key then label else label_of key rest

-- net.JoinHostPort
unfoldable pub join_host_port : String → String → String
join_host_port host port =
    if any (λ c. c == b':') (codes host) then "[" <> host <> "]:" <> port else host <> ":" <> port

unfoldable pub public_host_port : Service → String → Result String
unfolding port_of join_host_port decimal
public_host_port service port_id =
    let port = port_of port_id service.public_ports in
    if port == 0
    then fail (plain ("no public " <> quoted port_id <> " port"))
    else if str_eq service.public_ip ""
    then fail (plain "no public IP address")
    else ok (join_host_port service.public_ip (decimal port))

unfoldable pub public_endpoint : Service → String → String → Result String
public_endpoint service port_id scheme =
    public_host_port service port_id >>= λ host_port. ok (scheme <> "://" <> host_port)

-- The value beside a discarded error is the empty text.
abbrev pub or_empty : Result String → String
or_empty (ok text) = text
or_empty (fail e) = ""

unfoldable pub optional_public_endpoint : Service → String → String → String
optional_public_endpoint service port_id scheme = or_empty (public_endpoint service port_id scheme)

unfoldable pub optional_public_host_port : Service → String → String
optional_public_host_port service port_id = or_empty (public_host_port service port_id)
