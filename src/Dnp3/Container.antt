-- ===== src/Dnp3/Container.antt =====
-- assets/docker-compose.dnp3.yml and assets/run_server.py: from the environment of `docker compose`
-- to the outstation in the container. The substitution of variables is `docker compose`'s.
use cursus.Prelude.{ℕ, ◌≡◌, none, some, ◌∷◌}
use cursus.Wire.{Result, ok, ◌>>=◌, Text}
use cursus.Wire.Texts.{text, Environment, variable}
use cursus.Wire.Decimal.{int_of_text}
use cursus.Dnp3.Config.{Dnp3OutstationConfig}

-- `${NAME:-default}`: a variable that is set and not empty stands for its value.
pub record Substitution : Type 0 where
  pub substitute : Environment → Text → Text → Text
  pub substitute_set :
      (environment : Environment) (name default : Text) (c : ℕ) (value : Text)
      → variable name environment ≡ some (c ∷ value)
      → substitute environment name default ≡ c ∷ value

-- The `environment` of the service, over that of the image.
unfoldable pub container_environment : Substitution → Environment → Environment → Environment
container_environment compose image environment =
    (text "DNP3_HOST", value (text "DNP3_HOST") (text "0.0.0.0"))
    ∷ (text "DNP3_PORT", value (text "DNP3_PORT") (text "20000"))
    ∷ (text "DNP3_LOCAL_ADDR", value (text "DNP3_LOCAL_ADDR") (text "10"))
    ∷ (text "DNP3_REMOTE_ADDR", value (text "DNP3_REMOTE_ADDR") (text "1"))
    ∷ (text "DNP3_DATABASE_SIZE", value (text "DNP3_DATABASE_SIZE") (text "10"))
    ∷ (text "DNP3_EVENT_BUFFER_SIZE", value (text "DNP3_EVENT_BUFFER_SIZE") (text "10"))
    ∷ (text "LOG_LEVEL", value (text "LOG_LEVEL") (text "INFO"))
    ∷ image
  where
    value : Text → Text → Text
    value = compose.substitute environment

-- `os.environ.get(name, default)` with a text as default.
unfoldable pub read_text : Environment → Text → Text → Text
read_text environment name default = elim (variable name environment) [
  | none ↦ default
  | some value ↦ value
]

module _ (other_int : Text → Result ℕ) where
  unfoldable pub read_int : Environment → Text → ℕ → Result ℕ
  read_int environment name default = elim (variable name environment) [
    | none ↦ ok default
    | some value ↦ int_of_text other_int value
  ]

  -- The arguments with which `main` makes its server.
  unfoldable pub main_arguments : Environment → Result (Text × ℕ × Dnp3OutstationConfig)
  main_arguments environment = do
    let ip = read_text environment (text "DNP3_HOST") (text "0.0.0.0")
    port ← read_int environment (text "DNP3_PORT") 20000
    database_size ← read_int environment (text "DNP3_DATABASE_SIZE") 10
    event_buffer_size ← read_int environment (text "DNP3_EVENT_BUFFER_SIZE") 10
    local_addr ← read_int environment (text "DNP3_LOCAL_ADDR") 10
    remote_addr ← read_int environment (text "DNP3_REMOTE_ADDR") 1
    ok (
      ip,
      port,
      record {
        database_size = database_size;
        event_buffer_size = event_buffer_size;
        local_addr = local_addr;
        remote_addr = remote_addr;
      },
    )
