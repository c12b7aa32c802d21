-- ===== src/Trusted/Frame.antt =====
-- ts-core/src/net/trusted/frame.ts, constants.ts: what the two ends of a connection exchange.
-- Sequence and acknowledgement numbers are the numbers that their classes wrap; a payload is the
-- list of its bytes.
use heterogeneous_network.Base.{ℕ, List}

abbrev pub Payload : Type 0
Payload = List ℕ

pub record DataFrameBody : Type 0 where
  pub sequence_number : ℕ
  pub acknowledgement_number : ℕ
  pub payload : Payload

-- The bodies of `SendControlAction`: those that ask for an acknowledgement.
pub data ControlBody : Type 0 where
  syn_body fin_body : ControlBody

-- The bodies of `SendControlAckAction`.
pub data ControlAckBody : Type 0 where
  syn_ack_body fin_ack_body : ControlAckBody

pub data TrustedFrameBody : Type 0 where
  control : ControlBody → TrustedFrameBody
  control_ack : ControlAckBody → TrustedFrameBody
  data_body : DataFrameBody → TrustedFrameBody
  -- `DataAckFrameBody`, with its acknowledgement number.
  data_ack_body : ℕ → TrustedFrameBody

-- `enum FrameType`
unfoldable pub frame_type : TrustedFrameBody → ℕ
frame_type (control syn_body) = 1
frame_type (control_ack syn_ack_body) = 2
frame_type (control fin_body) = 3
frame_type (control_ack fin_ack_body) = 4
frame_type (data_body _) = 5
frame_type (data_ack_body _) = 6

-- `TrustedFrame & { body: DataFrameBody }`
pub record TrustedDataFrame : Type 0 where
  pub checksum : ℕ
  pub body : DataFrameBody

abbrev pub retry_count : ℕ
retry_count = 5

-- Durations in milliseconds.
abbrev pub retry_interval : ℕ
retry_interval = 1000

abbrev pub ack_timeout : ℕ
ack_timeout = 10000
