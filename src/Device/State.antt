-- ===== src/Device/State.antt =====
-- The state of a `SIGMeshDevice` that its operations share. A future is a number, and `answered`
-- holds the parameters that futures were given.
use tuya_ble_mesh.Prelude.{ℕ, Bool, false, Option, none, List, []}
use tuya_ble_mesh.Prelude.Int.{ℤ}
use tuya_ble_mesh.Bytes.{Bytes}
use tuya_ble_mesh.Mesh.Codec.{CompositionData}
use tuya_ble_mesh.Mesh.Transport.{MeshKeys}
use native.Mathlib.Decide.{ℕ_discrete}

pub record BufferKey : Type 0 where
  pub src : ℕ
  pub dst : ℕ
  pub seq_zero : ℕ
  pub aid : ℕ

unfoldable pub buffer_key_discrete : Discrete BufferKey
buffer_key_discrete = hlevel ℕ_discrete

-- `_ReassemblyBuffer`
pub record ReassemblyBuffer : Type 0 where
  pub src : ℕ
  pub dst : ℕ
  pub akf : ℕ
  pub aid : ℕ
  pub szmic : ℕ
  pub seq_zero : ℕ
  pub seg_n : ℕ
  pub segments : List (ℕ × Bytes)
  pub created_at : ℕ

-- The key of `_pending_responses`.
pub record ResponseKey : Type 0 where
  pub opcode : ℕ
  pub correlation_id : ℕ

unfoldable pub response_key_discrete : Discrete ResponseKey
response_key_discrete = hlevel ℕ_discrete

-- A round of calls of the callbacks of one kind; a callback's own exception is logged only.
pub data Event : Type 0 where
  onoff : Bool → Event
  level : ℤ → Event
  vendor : ℕ → Bytes → Event
  composed : CompositionData → Event
  disconnected : Event

pub record Device : Type 0 where
  pub target_addr : ℕ
  pub level_target_addr : ℕ
  pub brightness_model_id : ℕ
  pub our_addr : ℕ
  pub has_client : Bool
  pub keys : Option MeshKeys
  -- The number that the sequence store holds.
  pub seq : ℕ
  pub tid : ℕ
  pub correlation_id : ℕ
  pub composition : Option CompositionData
  pub segment_buffers : List (BufferKey × ReassemblyBuffer)
  pub pending_responses : List (ResponseKey × ℕ)
  pub answered : List (ℕ × Bytes)
  -- What the callbacks were called with, the latest last.
  pub events : List Event

-- `SIGMeshDevice.__init__`
unfoldable pub new_device : ℕ → ℕ → ℕ → ℕ → ℕ → Device
new_device target_addr our_addr seq level_target_addr brightness_model_id = record {
  target_addr = target_addr;
  level_target_addr = level_target_addr;
  brightness_model_id = brightness_model_id;
  our_addr = our_addr;
  has_client = false;
  keys = none;
  seq = seq;
  tid = 0;
  correlation_id = 0;
  composition = none;
  segment_buffers = [];
  pending_responses = [];
  answered = [];
  events = [];
}
