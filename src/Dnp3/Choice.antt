-- ===== src/Dnp3/Choice.antt =====
-- What the choice of the runtime decides.
use cursus.Prelude.{
  ℕ, ◌≡◌, refl, sym, ap, ◌∙◌, Bool, true, false, Option, some, List, [], ◌∷◌, ◌++◌, Bool-cases, ◌⊎◌,
  inl, inr, if◌then◌else◌,
}
use cursus.Wire.{Result, ok, raised, type_error, Text, Result-cases}
use cursus.Wire.Texts.{text, text_eq}
use cursus.Dnp3.Config.{Dnp3OutstationConfig, outstation_config}
use cursus.Dnp3.Docker.{Dnp3DockerServer, Host}
use cursus.Dnp3.Outstation.{Call, apply_binary, apply_analog, Dnp3OutstationServer}
use cursus.Dnp3.Outstation
use cursus.Dnp3.Runtime.{
  Backend, docker, native, native_backend, Dnp3Server, Outside, Entry, create_server, init,
  update_binary_input, update_analog_input,
}

module _ {Float : Type 0} (pydnp3 : List (Call Float) → Call Float → Result (Unit {0})) where
  abbrev is_docker : Backend → Bool
  is_docker (docker s) = true
  is_docker (native s) = false

  abbrev backend_of : Result Dnp3Server → Result Backend
  backend_of (ok s) = ok s.server
  backend_of (raised e) = raised e

  native_backend-ok :
      (r : Result Dnp3OutstationServer) (b : Backend)
      → native_backend r ≡ ok b
      → is_docker b ≡ false
  native_backend-ok (ok s) (docker d) h = absurd (cc)
  native_backend-ok (ok s) (native d) h = refl
  native_backend-ok (raised e) b h = absurd (cc)

  create_server-runtime :
      (ip : Text) (port : ℕ) (config : Dnp3OutstationConfig) (runtime : Text) (o : Outside Float)
      (b : Backend)
      → (create_server pydnp3 ip port config runtime o).0 ≡ ok b
      → is_docker b ≡ text_eq runtime (text "docker")
  unfolding create_server
  create_server-runtime ip port config runtime o (docker d) h =
      elim (Bool-cases (text_eq runtime (text "docker"))) [
        | inl chosen ↦ rw chosen refl
        | inr other ↦ elim (Bool-cases (text_eq runtime (text "native"))) [
          | inl n ↦ absurd (
              cc (
                native_backend-ok (Outstation.init pydnp3 ip port (some config) o.calls).0
                  (docker d) (simp (other, n) at h)))
          | inr n ↦ absurd (cc (simp (other, n) at h))
        ]
      ]
  create_server-runtime ip port config runtime o (native d) h =
      elim (Bool-cases (text_eq runtime (text "docker"))) [
        | inl chosen ↦ absurd (cc (simp chosen at h))
        | inr other ↦ rw other refl
      ]

  backend_cases :
      (b : Backend)
      → ((s : Dnp3DockerServer) × (b ≡ docker s)) ⊎ ((s : Dnp3OutstationServer) × (b ≡ native s))
  backend_cases (docker s) = inl (s, refl)
  backend_cases (native s) = inr (s, refl)

  init-server :
      (ip : Text) (port : ℕ) (config : Option Dnp3OutstationConfig) (runtime : Text)
      (o o' : Outside Float) (s : Dnp3Server)
      → init pydnp3 ip port config runtime o ≡ (ok s, o')
      → (create_server pydnp3 ip port (outstation_config config) runtime o).0 ≡ ok s.server
  unfolding init
  init-server ip port config runtime o o' s h =
      elim (Result-cases (create_server pydnp3 ip port (outstation_config config) runtime o).0) [
        | inl (b, e) ↦
            e ∙ ap (λ (r : Result Dnp3Server × Outside Float). backend_of r.0) (simp e at h)
        | inr (x, e) ↦ absurd (cc (simp e at h))
      ]

  update-is_docker :
      (host : Host) (ip : Text) (port : ℕ) (config : Option Dnp3OutstationConfig) (runtime : Text)
      (o o' : Outside Float) (s : Dnp3Server) (index : ℕ) (value : Bool) (analog : Float)
      → init pydnp3 ip port config runtime o ≡ (ok s, o')
      → (let e : Entry Float = record { server = s; outside = o' } in
          (text_eq runtime (text "docker") ≡ true
            → (update_binary_input host pydnp3 index value e ≡ (raised type_error, e))
              × (update_analog_input host pydnp3 index analog e ≡ (raised type_error, e)))
          × (text_eq runtime (text "docker") ≡ false
              → (update_binary_input host pydnp3 index value e ≡ (
                pydnp3 o'.calls (apply_binary index value),
                record e {
                  outside = record o' { calls = o'.calls ++ apply_binary index value ∷ [] };
                },
              ))
                × (update_analog_input host pydnp3 index analog e ≡ (
                  pydnp3 o'.calls (apply_analog index analog),
                  record e {
                    outside = record o' { calls = o'.calls ++ apply_analog index analog ∷ [] };
                  },
                ))))
  unfolding init update_binary_input update_analog_input Outstation.update_binary_input
      Outstation.update_analog_input Outstation.perform Outstation.call
  update-is_docker host ip port config runtime o o' s index value analog h =
      let chosen =
        create_server-runtime ip port (outstation_config config) runtime o s.server
          (init-server ip port config runtime o o' s h) in
      elim (backend_cases s.server) [
        | inl (d, e) ↦ (λ _. simp e (refl, refl), λ k. absurd (cc))
        | inr (n, e) ↦ (
          λ k. absurd (cc),
          λ _. simp e (
            ap
                (λ (b : Backend). (
                  pydnp3 o'.calls (apply_binary index value),
                  record {
                    server = record s { server = b };
                    outside = record o' { calls = o'.calls ++ apply_binary index value ∷ [] };
                  },
                ))
                (sym e),
            ap
                (λ (b : Backend). (
                  pydnp3 o'.calls (apply_analog index analog),
                  record {
                    server = record s { server = b };
                    outside = record o' { calls = o'.calls ++ apply_analog index analog ∷ [] };
                  },
                ))
                (sym e),
          ),
        )
      ]

  -- A server that was made with the runtime "docker" refuses to update a point with a TypeError and
  -- changes nothing; one made with another runtime hands the update to pydnp3 as one call, and
  -- raises what that raises.
  pub update-runtime :
      (host : Host) (ip : Text) (port : ℕ) (config : Option Dnp3OutstationConfig) (runtime : Text)
      (o o' : Outside Float) (s : Dnp3Server) (index : ℕ) (value : Bool) (analog : Float)
      → init pydnp3 ip port config runtime o ≡ (ok s, o')
      → (let e : Entry Float = record { server = s; outside = o' } in
          (update_binary_input host pydnp3 index value e ≡ (
            if text_eq runtime (text "docker") then (raised type_error, e) else (
              pydnp3 o'.calls (apply_binary index value),
              record e {
                outside = record o' { calls = o'.calls ++ apply_binary index value ∷ [] };
              },
            )))
          × (update_analog_input host pydnp3 index analog e ≡ (
              if text_eq runtime (text "docker") then (raised type_error, e) else (
                pydnp3 o'.calls (apply_analog index analog),
                record e {
                  outside = record o' { calls = o'.calls ++ apply_analog index analog ∷ [] };
                },
              ))))
  update-runtime host ip port config runtime o o' s index value analog h =
      let (refused, handed) =
        update-is_docker host ip port config runtime o o' s index value analog h in
      elim (Bool-cases (text_eq runtime (text "docker"))) [
        | inl chosen ↦ simp chosen (refused chosen)
        | inr other ↦ simp other (handed other)
      ]
