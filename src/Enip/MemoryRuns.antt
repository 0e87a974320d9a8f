-- ===== src/Enip/MemoryRuns.antt =====
-- Accesses to the assemblies of the default emulator.
use cursus.Prelude.{◌≡◌, none, List, [], ◌∷◌}
use cursus.Prelude.Dict.{lookup}
use cursus.Wire.Texts.{text}
use cursus.Enip.Objects.{EnipServer, init}
use cursus.Enip.Memory.{
  Access, set_data, get_data, client_set, client_get, accesses, promises, Holds, Memory,
  accesses_refine,
}

abbrev emulator : EnipServer
emulator = init (text "127.0.0.1") 44818 none

-- Instance 7 is added by the program; a client cannot add 8.
abbrev list : List Access
list =
    client_set 100 (1 ∷ 2 ∷ [])
    ∷ client_get 100
    ∷ client_set 8 (3 ∷ [])
    ∷ get_data 8
    ∷ set_data 7 (4 ∷ [])
    ∷ client_get 7
    ∷ []

accesses_refine_example :
    (let m : Memory = λ i. lookup i emulator.assemblies in
      ((accesses list emulator).0 ≡ (promises list m).0)
      × Holds (accesses list emulator).1 (promises list m).1)
accesses_refine_example = accesses_refine list emulator
