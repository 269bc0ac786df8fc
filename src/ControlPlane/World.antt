-- ===== src/ControlPlane/World.antt =====
-- What the control plane takes from outside: the clock, randomness, and the encodings of Go values
-- whose types the model leaves open.
use Prim.Native.String.{◌++◌}
use remote_dev_skillkit.Prelude.{
  ℕ, suc, ◌-◌, ◌*◌, ◌/◌, ◌^◌, String, Bool, Option, Dict, ℤ, pos, negsuc, ◌==◌,
}
use remote_dev_skillkit.Prelude.Int.{int_eq, ltb_ℤ, wrap_int64}
use remote_dev_skillkit.Prelude.Text.{base32}
use remote_dev_skillkit.ControlPlane.Protocol.{EventType, Value, Payload}
use remote_dev_skillkit.ControlPlane.Session.{Time}

-- The struct that `eventFingerprint` encodes.
pub record EventFingerprint : Type 0 where
  pub type : EventType
  pub from_endpoint_id : String
  pub to_endpoint_id : String
  pub task_id : String
  pub payload : Payload

pub record World : Type 0 where
  -- The reading of the clock at its n-th call.
  pub clock : ℕ → Time
  -- The bytes of the n-th read of randomness as one number, or its error.
  pub entropy : ℕ → Option ℕ
  -- `json.Marshal`, of a map and of a fingerprint, or its error.
  pub marshal : Dict String Value → Option String
  pub marshal_fingerprint : EventFingerprint → Option String
  -- The `%q` of `fmt.Errorf`
  pub quote : String → String
  -- `fmt.Sprint`
  pub sprint : Value → String
  -- The conversion `int(f)` of a floating-point value; `none` where the value is not one.
  pub int_of_float : ℕ → Option ℤ

abbrev pub is_zero : Time → Bool
is_zero t = t == pos 0

abbrev pub before : Time → Time → Bool
before a b = ltb_ℤ a b

abbrev pub after : Time → Time → Bool
after a b = ltb_ℤ b a

scale : ℕ → ℤ → ℤ
scale k (pos n) = pos (k * n)
scale k (negsuc n) = negsuc (k * suc n - 1)

-- `time.Duration(ms) * time.Millisecond`
unfoldable pub millis : ℤ → ℤ
unfolding scale wrap_int64
millis ms = wrap_int64 (scale 1_000_000 ms)

-- The text that `newID` makes of ten random bytes.
unfoldable pub id_text : String → ℕ → String
unfolding base32
id_text prefix raw = prefix ++ "_" ++ base32 "abcdefghijklmnopqrstuvwxyz234567" 16 raw ""

-- The text that `newJoinCode` makes of five random bytes.
unfoldable pub join_code_text : ℕ → String
unfolding base32
join_code_text raw =
    base32 "ABCDEFGHIJKLMNOPQRSTUVWXYZ234567" 4 (raw / 32 ^ 4)
      ("-" ++ base32 "ABCDEFGHIJKLMNOPQRSTUVWXYZ234567" 4 raw "")
