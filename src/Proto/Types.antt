-- ===== src/Proto/Types.antt =====
-- internal/proto/constants.go: the protocol's constants, and the names of the frame types.
use Prim.Native.String.{String}
use wire_rift.Prelude.{ℕ, List, [], ◌∷◌, ◌==◌, if◌then◌else◌}

abbrev pub version : ℕ
version = 0x01

abbrev pub magic : List ℕ
magic = 0x57 ∷ 0x52 ∷ 0x46 ∷ 0x01 ∷ []

abbrev pub header_size : ℕ
header_size = 9

abbrev pub max_payload_size : ℕ
max_payload_size = 16777216

abbrev pub max_stream_id : ℕ
max_stream_id = 16777215

abbrev pub control_stream_id : ℕ
control_stream_id = 0

abbrev pub default_window_size : ℕ
default_window_size = 262144

-- `FrameType` is a byte: a peer may send any value.
abbrev pub FrameType : Type 0
FrameType = ℕ

abbrev pub auth_req : FrameType
auth_req = 0x01

abbrev pub auth_res : FrameType
auth_res = 0x02

abbrev pub tunnel_req : FrameType
tunnel_req = 0x03

abbrev pub tunnel_res : FrameType
tunnel_res = 0x04

abbrev pub tunnel_close : FrameType
tunnel_close = 0x05

abbrev pub stream_open : FrameType
stream_open = 0x10

abbrev pub stream_data : FrameType
stream_data = 0x11

abbrev pub stream_close : FrameType
stream_close = 0x12

abbrev pub stream_rst : FrameType
stream_rst = 0x13

abbrev pub stream_window : FrameType
stream_window = 0x14

abbrev pub heartbeat : FrameType
heartbeat = 0x20

abbrev pub heartbeat_ack : FrameType
heartbeat_ack = 0x21

abbrev pub go_away : FrameType
go_away = 0xfe

abbrev pub error_frame : FrameType
error_frame = 0xff

-- `FrameType.String`
unfoldable pub type_name : FrameType → String
type_name t =
    if t == auth_req
    then "AUTH_REQ"
    else if t == auth_res
    then "AUTH_RES"
    else if t == tunnel_req
    then "TUNNEL_REQ"
    else if t == tunnel_res
    then "TUNNEL_RES"
    else if t == tunnel_close
    then "TUNNEL_CLOSE"
    else if t == stream_open
    then "STREAM_OPEN"
    else if t == stream_data
    then "STREAM_DATA"
    else if t == stream_close
    then "STREAM_CLOSE"
    else if t == stream_rst
    then "STREAM_RST"
    else if t == stream_window
    then "STREAM_WINDOW"
    else if t == heartbeat
    then "HEARTBEAT"
    else if t == heartbeat_ack
    then "HEARTBEAT_ACK"
    else if t == go_away
    then "GO_AWAY"
    else if t == error_frame
    then "ERROR"
    else "UNKNOWN"
