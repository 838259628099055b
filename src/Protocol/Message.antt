-- ===== src/Protocol/Message.antt =====
-- include/sputteros/comms/protocol/MessageType.h: a message type is its byte; `heartbeat` stands with
-- the decoder.
use sputter_os.Prelude.{ℕ, Bool, ◌&&◌, leb}

abbrev pub command : ℕ
command = 0x01

abbrev pub handshake_req : ℕ
handshake_req = 0x02

abbrev pub metrics_req : ℕ
metrics_req = 0x03

abbrev pub exit_handshake : ℕ
exit_handshake = 0x04

abbrev pub ack : ℕ
ack = 0x81

abbrev pub nack : ℕ
nack = 0x82

abbrev pub handshake_resp : ℕ
handshake_resp = 0x83

abbrev pub metrics_resp : ℕ
metrics_resp = 0x85

abbrev pub log_entry : ℕ
log_entry = 0x86

abbrev pub data_blob : ℕ
data_blob = 0x87

unfoldable pub is_host_message : ℕ → Bool
is_host_message t = leb 0x01 t && leb t 0x7F

unfoldable pub is_device_message : ℕ → Bool
is_device_message t = leb 0x81 t && leb t 0xBF

unfoldable pub is_bidirectional_message : ℕ → Bool
is_bidirectional_message t = leb 0xF0 t
