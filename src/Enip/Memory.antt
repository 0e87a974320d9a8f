-- ===== src/Enip/Memory.antt =====
-- The assemblies refine a memory: a function from instances to bytes, which the program that runs the
-- emulator and its clients read and write.
use cursus.Prelude.{
  ℕ, ◌≡◌, refl, sym, ap, ◌∙◌, Option, none, some, List, [], ◌∷◌, ◌==◌, if◌then◌else◌, Option-cases,
  inl, inr,
}
use cursus.Prelude.Dict.{lookup, lookup-put}
use cursus.Wire.{Result, ok, raised, key_error, Bytes}
use cursus.Enip.Objects.{EnipServer}
use cursus.Enip.CipService.{handle_cip_request}
use cursus.Enip.Server.{set_assembly_data, get_assembly_data}
use cursus.Enip.Assemblies.{
  assembly_request, found_status, found_data, get_run, set_run, has_key-none, has_key-some,
}

-- `set_assembly_data` and `get_assembly_data`, and the SetAttributeSingle and GetAttributeSingle of a
-- client on the data of an assembly.
pub data Access : Type 0 where
  set_data client_set : ℕ → Bytes → Access
  get_data client_get : ℕ → Access

abbrev pub access : Access → EnipServer → Result Bytes × EnipServer
access (set_data i value) s = (ok [], set_assembly_data i value s)
access (get_data i) s = (get_assembly_data i s, s)
access (client_set i value) s = handle_cip_request (assembly_request 0x10 i value) s
access (client_get i) s = handle_cip_request (assembly_request 0x0e i []) s

pub accesses : List Access → EnipServer → List (Result Bytes) × EnipServer
accesses [] s = ([], s)
accesses (a ∷ rest) s =
    let (answer, s') = access a s in
    let (answers, s'') = accesses rest s' in (answer ∷ answers, s'')

abbrev pub Memory : Type 0
Memory = ℕ → Option Bytes

abbrev pub written : ℕ → Bytes → Memory → Memory
written i value m j = if i == j then some value else m j

abbrev pub read_data : Option Bytes → Result Bytes
read_data none = raised key_error
read_data (some value) = ok value

-- A client cannot add an instance.
abbrev pub set_if_there : Option Bytes → ℕ → Bytes → Memory → Memory
set_if_there none i value m = m
set_if_there (some old) i value m = written i value m

abbrev pub promised : Access → Memory → Result Bytes × Memory
promised (set_data i value) m = (ok [], written i value m)
promised (get_data i) m = (read_data (m i), m)
promised (client_set i value) m =
    (ok (0x90 ∷ 0x00 ∷ found_status (m i) ∷ 0x00 ∷ []), set_if_there (m i) i value m)
promised (client_get i) m = (ok (found_data (m i)), m)

pub promises : List Access → Memory → List (Result Bytes) × Memory
promises [] m = ([], m)
promises (a ∷ rest) m =
    let (answer, m') = promised a m in
    let (answers, m'') = promises rest m' in (answer ∷ answers, m'')

-- The server holds what the memory does.
abbrev pub Holds : EnipServer → Memory → Type 0
Holds s m = (i : ℕ) → lookup i s.assemblies ≡ m i

get_assembly_data_lem :
    (i : ℕ) (s : EnipServer) → get_assembly_data i s ≡ read_data (lookup i s.assemblies)
unfolding get_assembly_data
get_assembly_data_lem i s = elim (Option-cases (lookup i s.assemblies)) [
  | inl absent ↦ rw (absent, get_assembly_data) refl
  | inr (value, there) ↦ rw (there, get_assembly_data) refl
]

access_refines :
    (a : Access) (s : EnipServer) (m : Memory)
    → Holds s m
    → ((access a s).0 ≡ (promised a m).0) × Holds (access a s).1 (promised a m).1
unfolding set_assembly_data get_assembly_data
access_refines (set_data i value) s m h =
    (refl, λ j. rw (lookup-put i j value s.assemblies, h j) refl)
access_refines (get_data i) s m h = (get_assembly_data_lem i s ∙ ap read_data (h i), h)
access_refines (client_set i value) s m h = elim (Option-cases (lookup i s.assemblies)) [
  | inl absent ↦
      rw (set_run i value s, sym (h i), absent, has_key-none i s.assemblies absent) (refl, h)
  | inr (old, there) ↦
      rw (set_run i value s, sym (h i), there, has_key-some i s.assemblies old there)
        (refl, λ j. rw (lookup-put i j value s.assemblies, h j) refl)
]
access_refines (client_get i) s m h = rw (get_run i s, h i) (refl, h)

-- Any accesses of the program and of its clients, in any order: the server answers each as the
-- memory does that holds its assemblies at first, and in the end holds what that memory then does.
pub accesses_refine :
    (list : List Access) (s : EnipServer)
    → (let m : Memory = λ i. lookup i s.assemblies in
        ((accesses list s).0 ≡ (promises list m).0) × Holds (accesses list s).1 (promises list m).1)
unfolding promises accesses
accesses_refine list s = simulated list s (λ i. lookup i s.assemblies) (λ i. refl)
  where
    simulated :
        (list : List Access) (s : EnipServer) (m : Memory)
        → Holds s m
        → ((accesses list s).0 ≡ (promises list m).0)
          × Holds (accesses list s).1 (promises list m).1
    simulated [] s m h = (refl, h)
    simulated (a ∷ rest) s m h =
        let (same, holds) = access_refines a s m h in
        let (others, after) = simulated rest (access a s).1 (promised a m).1 holds in (cc, after)
