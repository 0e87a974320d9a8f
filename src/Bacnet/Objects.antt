-- ===== src/Bacnet/Objects.antt =====
-- The data of bacnet/server.py: the device, its analog values, the configuration and the server.
-- Floats are a parameter: Python's `float` and the two uses of `struct` with the format ">f".
use cursus.Prelude.{ℕ, ◌≡◌, Option, none, some, [], ◌∷◌, length, All}
use cursus.Prelude.Dict.{Dict}
use cursus.Wire.Texts.{text}
use cursus.Wire.{Result, ok, raised, overflow_error, Error, Bytes, Text, IsByte}

-- `struct.pack` with ">f" returns four bytes or raises OverflowError; `struct.unpack` of four
-- bytes always returns a float.
pub record Floats : Type 1 where
  pub Float : Type 0
  pub zero_float : Float
  pub pack_float : Float → Result Bytes
  pub unpack_float : Bytes → Float
  pub pack_float_width : (x : Float) (bs : Bytes) → pack_float x ≡ ok bs → length bs ≡ 4
  pub pack_float_bytes : (x : Float) (bs : Bytes) → pack_float x ≡ ok bs → All IsByte bs
  pub pack_float_error : (x : Float) (e : Error) → pack_float x ≡ raised e → e ≡ overflow_error

pub record BacnetDevice : Type 0 where
  pub instance_number : ℕ
  pub object_name : Text
  pub description : Text
  pub vendor_name : Text
  pub vendor_identifier : ℕ
  pub model_name : Text
  pub max_apdu_length_accepted : ℕ
  pub segmentation_supported : ℕ
  pub protocol_version : ℕ
  pub protocol_revision : ℕ

abbrev pub default_device : BacnetDevice
default_device = record {
  instance_number = 1234;
  object_name = text "Cursus BACnet Device";
  description = text "BACnet/IP emulator";
  vendor_name = text "Cursus";
  vendor_identifier = 999;
  model_name = text "Cursus BACnet/IP";
  max_apdu_length_accepted = 1476;
  segmentation_supported = 3;
  protocol_version = 1;
  protocol_revision = 14;
}

pub record BacnetAnalogValue (F : Type 0) : Type 0 where
  pub instance_number : ℕ
  pub object_name : Text
  pub description : Text
  pub present_value : F
  pub units : ℕ

pub record BacnetServerConfig (F : Type 0) : Type 0 where
  pub device : BacnetDevice
  pub analog_values : Dict (BacnetAnalogValue F)

pub record BacnetServer (F : Type 0) : Type 0 where
  pub ip : Text
  pub port : ℕ
  pub config : BacnetServerConfig F
  pub analog_values : Dict (BacnetAnalogValue F)

module _ (fl : Floats) where
  open fl use {Float, zero_float}

  abbrev pub default_config : BacnetServerConfig Float
  default_config = record {
    device = default_device;
    analog_values =
        (
          1,
          record {
            instance_number = 1;
            object_name = text "AV-1";
            description = text "Analog Value 1";
            present_value = zero_float;
            units = 95;
          },
        )
        ∷ (
          2,
          record {
            instance_number = 2;
            object_name = text "AV-2";
            description = text "Analog Value 2";
            present_value = zero_float;
            units = 95;
          },
        )
        ∷ [];
  }

  abbrev chosen_config : Option (BacnetServerConfig Float) → BacnetServerConfig Float
  chosen_config none = default_config
  chosen_config (some config) = config

  copied : Dict (BacnetAnalogValue Float) → Dict (BacnetAnalogValue Float)
  copied [] = []
  copied ((instance_number, value) ∷ rest) =
      (
        instance_number,
        record {
          instance_number = value.instance_number;
          object_name = value.object_name;
          description = value.description;
          present_value = value.present_value;
          units = value.units;
        },
      )
      ∷ copied rest

  -- `BacnetServer(ip, port, config)`: the server copies the analog values of its configuration.
  unfoldable pub init : Text → ℕ → Option (BacnetServerConfig Float) → BacnetServer Float
  unfolding copied
  init ip port config = record {
    ip = ip;
    port = port;
    config = chosen_config config;
    analog_values = copied (chosen_config config).analog_values;
  }
