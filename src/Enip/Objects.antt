-- ===== src/Enip/Objects.antt =====
-- The data of enip/server.py: the identity, the configuration, frames and the server; and
-- `struct.unpack_from` and the "8s" field as the code uses them.
use cursus.Prelude.{
  All, ◌≡◌, ℕ, zero, suc, ◌+◌, Option, none, some, [], ◌∷◌, ltb, length, replicate, if◌then◌else◌,
}
use cursus.Prelude.Dict.{Dict}
use cursus.Prelude.IntSet.{IntSet}
use cursus.Wire.{
  os_error, Error, IsByte, Result, ok, raised, struct_error, Bytes, Text, slice, from_little,
}

pub record EnipIdentity : Type 0 where
  pub vendor_id : ℕ
  pub device_type : ℕ
  pub product_code : ℕ
  pub revision_major : ℕ
  pub revision_minor : ℕ
  pub status : ℕ
  pub serial_number : ℕ
  pub product_name : Text
  pub device_state : ℕ

-- The product name is "1756-EN2T/A".
abbrev pub default_identity : EnipIdentity
default_identity = record {
  vendor_id = 1;
  device_type = 12;
  product_code = 65001;
  revision_major = 1;
  revision_minor = 0;
  status = 0x0030;
  serial_number = 0xc0da2026;
  product_name = b'1' ∷ b'7' ∷ b'5' ∷ b'6' ∷ b'-' ∷ b'E' ∷ b'N' ∷ b'2' ∷ b'T' ∷ b'/' ∷ b'A' ∷ [];
  device_state = 0x03;
}

pub record EnipServerConfig : Type 0 where
  pub identity : EnipIdentity
  pub assemblies : Dict Bytes

abbrev pub default_config : EnipServerConfig
default_config = record {
  identity = default_identity;
  assemblies = (100, replicate 32 0) ∷ (101, replicate 32 0) ∷ (150, replicate 32 0) ∷ [];
}

pub record EncapsulationFrame : Type 0 where
  pub command : ℕ
  pub session_handle : ℕ
  pub sender_context : Bytes
  pub options : ℕ
  pub payload : Bytes

pub record EnipServer : Type 0 where
  pub ip : Text
  pub port : ℕ
  pub config : EnipServerConfig
  pub next_session_handle : ℕ
  pub active_sessions : IntSet
  pub assemblies : Dict Bytes

abbrev pub chosen_config : Option EnipServerConfig → EnipServerConfig
chosen_config none = default_config
chosen_config (some config) = config

-- `EnipServer(ip, port, config)`; the copies of the assemblies are the same values.
unfoldable pub init : Text → ℕ → Option EnipServerConfig → EnipServer
init ip port config = record {
  ip = ip;
  port = port;
  config = chosen_config config;
  next_session_handle = 1;
  active_sessions = [];
  assemblies = (chosen_config config).assemblies;
}

-- One unsigned little-endian field of `n` bytes of `struct.unpack_from`.
unfoldable pub unpack_from : ℕ → Bytes → ℕ → Result ℕ
unpack_from n payload offset =
    if ltb (length payload) (offset + n)
    then raised struct_error
    else ok (from_little (slice payload offset (offset + n)))

-- The field "8s" of `struct.pack`: cut or padded with zero bytes.
unfoldable pub pack_string : ℕ → Bytes → Bytes
pack_string zero bs = []
pack_string (suc n) [] = 0 ∷ pack_string n []
pack_string (suc n) (b ∷ bs) = b ∷ pack_string n bs

-- `socket.inet_aton`, which is not the program's: it returns the four bytes of an address or
-- raises OSError.
pub record Sockets : Type 0 where
  pub inet_aton : Text → Result Bytes
  pub inet_aton_width : (address : Text) (bs : Bytes) → inet_aton address ≡ ok bs → length bs ≡ 4
  pub inet_aton_bytes : (address : Text) (bs : Bytes) → inet_aton address ≡ ok bs → All IsByte bs
  pub inet_aton_error : (address : Text) (e : Error) → inet_aton address ≡ raised e → e ≡ os_error
