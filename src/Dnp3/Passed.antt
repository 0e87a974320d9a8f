-- ===== src/Dnp3/Passed.antt =====
-- The configuration of the Docker service reaches the outstation in the container unchanged.
use cursus.Prelude.{ℕ, ◌≡◌, some}
use cursus.Wire.{Result, ok, Text}
use cursus.Wire.Texts.{text, Environment, text_eq, variable, variable-set_variable}
use cursus.Wire.Decimal.{decimal, int_of_text-decimal, decimal_shows}
use cursus.Dnp3.Docker.{Dnp3DockerServer, compose_environment}
use cursus.Dnp3.Container.{Substitution, container_environment, read_text, read_int, main_arguments}

-- The variables that the service sets.
module _ (environment : Environment) (s : Dnp3DockerServer) where
  host_set : variable (text "DNP3_HOST") (compose_environment environment s) ≡ some (text "0.0.0.0")
  unfolding compose_environment text_eq
  host_set = simp variable-set_variable

  port_set : variable (text "DNP3_PORT") (compose_environment environment s) ≡ some (decimal s.port)
  unfolding compose_environment text_eq
  port_set = simp variable-set_variable

  database_size_set :
      variable (text "DNP3_DATABASE_SIZE") (compose_environment environment s)
      ≡ some (decimal s.config.database_size)
  unfolding compose_environment text_eq
  database_size_set = simp variable-set_variable

  event_buffer_size_set :
      variable (text "DNP3_EVENT_BUFFER_SIZE") (compose_environment environment s)
      ≡ some (decimal s.config.event_buffer_size)
  unfolding compose_environment text_eq
  event_buffer_size_set = simp variable-set_variable

  local_addr_set :
      variable (text "DNP3_LOCAL_ADDR") (compose_environment environment s)
      ≡ some (decimal s.config.local_addr)
  unfolding compose_environment text_eq
  local_addr_set = simp variable-set_variable

  remote_addr_set :
      variable (text "DNP3_REMOTE_ADDR") (compose_environment environment s)
      ≡ some (decimal s.config.remote_addr)
  unfolding compose_environment text_eq
  remote_addr_set = simp variable-set_variable

  -- A number that is set is substituted.
  substitute-decimal :
      (compose : Substitution) (name default : Text) (n : ℕ)
      → variable name (compose_environment environment s) ≡ some (decimal n)
      → compose.substitute (compose_environment environment s) name default ≡ decimal n
  substitute-decimal compose name default n h =
      let (c, rest, e) = decimal_shows n in
      rw e
        (compose.substitute_set (compose_environment environment s) name default c rest (rw e at h))

  -- Whatever the environment of the process, the image and the compose tool: the outstation in the
  -- container is made with the address 0.0.0.0, the port of the service and its configuration.
  pub main_arguments-container_environment :
      (compose : Substitution) (image : Environment) (other_int : Text → Result ℕ)
      → main_arguments other_int
          (container_environment compose image (compose_environment environment s))
        ≡ ok (text "0.0.0.0", s.port, s.config)
  unfolding main_arguments read_int read_text container_environment variable text_eq
  main_arguments-container_environment compose image other_int = rw (
    substitute-decimal compose (text "DNP3_PORT") (text "20000") s.port port_set,
    substitute-decimal compose (text "DNP3_DATABASE_SIZE") (text "10") s.config.database_size
        database_size_set,
    substitute-decimal compose (text "DNP3_EVENT_BUFFER_SIZE") (text "10")
        s.config.event_buffer_size event_buffer_size_set,
    substitute-decimal compose (text "DNP3_LOCAL_ADDR") (text "10") s.config.local_addr
        local_addr_set,
    substitute-decimal compose (text "DNP3_REMOTE_ADDR") (text "1") s.config.remote_addr
        remote_addr_set,
    compose.substitute_set (compose_environment environment s) (text "DNP3_HOST") (text "0.0.0.0")
        b'0' (text ".0.0.0") host_set,
    int_of_text-decimal other_int s.port,
    int_of_text-decimal other_int s.config.database_size,
    int_of_text-decimal other_int s.config.event_buffer_size,
    int_of_text-decimal other_int s.config.local_addr,
    int_of_text-decimal other_int s.config.remote_addr,
  )
