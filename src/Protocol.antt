-- ===== src/Protocol.antt =====
-- internal/protocol/protocol.go: the VKT-7 protocol client. This file has the constants; the
-- children model the CRC, the frames, the responses, the transaction, the parsers and the client.
pub mod Crc
pub mod Frame
pub mod Response
pub mod Transaction
pub mod Reply
pub mod Signed
pub mod Elements
pub mod ReadList
pub mod Client
pub mod Properties
pub mod DeviceTime
pub mod Open
use vkt7d.Common.{ℕ}

abbrev pub function_read : ℕ
function_read = 0x03

abbrev pub function_write : ℕ
function_write = 0x10

abbrev pub max_frame_size : ℕ
max_frame_size = 264

abbrev pub exception_frame_size : ℕ
exception_frame_size = 6

abbrev pub write_response_size : ℕ
write_response_size = 8

abbrev pub request_prefix : ℕ
request_prefix = 0xFF

abbrev pub hourly : ℕ
hourly = 0

abbrev pub daily : ℕ
daily = 1

abbrev pub monthly : ℕ
monthly = 2

abbrev pub total : ℕ
total = 3

abbrev pub current : ℕ
current = 4

abbrev pub current_total : ℕ
current_total = 5

abbrev pub properties : ℕ
properties = 6
