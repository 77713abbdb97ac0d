-- ===== src/Protocol/DeviceTime.antt =====
-- protocol.go: `ReadDeviceTime`.
use vkt7d.Common.{◌+◌, ◌*◌, ltb, if◌then◌else◌, Bytes, length, get_or}
use vkt7d.Errors.{Result, ok, err, malformed, M, ◌>>=◌, lift}
use vkt7d.Calendar.{Time, date, month_index}
use vkt7d.Protocol.Transaction.{SerialPort}
use vkt7d.Protocol.Reply.{data_part}
use vkt7d.Protocol.Client.{Client, read, reg_date}

unfoldable pub device_time : Bytes → Result Time
device_time d =
    if ltb (length d) 6
    then err (malformed d)
    else ok (
        date (month_index (2000 + get_or d 2 0) (get_or d 1 0)) (get_or d 0 0)
          (get_or d 3 0 * 3600 + get_or d 4 0 * 60 + get_or d 5 0))

unfoldable pub read_device_time : (p : SerialPort) → Client → M p.State Time
read_device_time p c = read p c reg_date 0 >>= λ r. lift (device_time (data_part r))
