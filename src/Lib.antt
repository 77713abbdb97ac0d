-- ===== src/Lib.antt =====
-- vkt7d: a daemon that reads VKT-7 heat meters over a serial line and stores their records.
--
-- The program has these parts. internal/rfc2217 is a serial port over the network: telnet.go takes
-- the Telnet framing off the byte stream, rfc2217.go sends commands to the serial server, waits
-- for their acknowledgements, and hands the meter's bytes to `Read`. internal/protocol is the
-- VKT-7 protocol over any serial port, this one or a local one: frames with a CRC, a transaction
-- with one retry, and the parsers of the replies. internal/collector calls the protocol's client:
-- it chooses the elements of an archive, works out the dates of its records, reads and stores
-- them, one archive after the other, once a session. internal/storage keeps them in PostgreSQL.
-- internal/config is the configuration that a session is run with. cmd/vkt7d connects to the
-- database and runs the collector.
--
-- Which file models what:
--   Errors              the error values of the packages, `Result`, and operations `M` on a state
--   Common              Boolean tests, lists by native indices, bit operations, signed integers
--   Calendar            what the program uses of package time
--   Config              internal/config/config.go: `Parse` and `Load`; Config/Accepted
--   Model               internal/model/model.go: elements, values, maps from names; Model/Names is
--                       `ElementName`
--   Telnet              internal/rfc2217/telnet.go: `telnetDecoder.feed`; Telnet/Stream is about its
--                       cuts, Telnet/Wire about a grammar of the stream, Telnet/Size about the length
--                       of what it shows
--   Port                internal/rfc2217/rfc2217.go: constants and state of `Port`
--   Port/Output         `writeRaw`, `Write`, `negotiate`, the message of `command`, the replies
--   Port/Acks           `command`, `removeAck`, `reader` and its callbacks, as steps
--   Port/Queue          `Read`, and the channel that the reader fills
--   Port/Mode           `SetMode`, `SetRTS`, `SetDTR`, `Break`, the resets, the modem lines
--   Port/Session        `Close`, `SetReadTimeout`, and `Open` from the made connection on
--   Port/Endpoint       `Open` on its address; Endpoint/Address: the host and the port
--   Network             the methods of `Port` as the serial port of the protocol, with the reader at work
--                       while a call waits; Network/Control and Network/Said: what a call says on the
--                       connection, Network/Interface: the interface, Network/Transmit: the way to the
--                       meter, Network/Plan and Network/Arrival: the way back, Network/Granted, Network/Acknowledged
--                       and Network/Purge: a reset, Network/Answered: a transaction
--   Protocol/Crc        internal/protocol/protocol.go: `CRC16`; Crc/Bounds and Crc/Detect
--   Protocol/Frame      `frame`, and little-endian reads
--   Protocol/Response   `responseLength`, `validateResponse`, and one examination of the data so far
--   Protocol/Transaction  `readResponse` and `tx` over a serial port; Transaction/Receive,
--                       Transaction/Retry and Transaction/Invariant are about them
--   Protocol/Reply      `dataPart`, `parseException`, `IsExceptionCode`, the small records
--   Protocol/Signed     `decodeSignedInt`
--   Protocol/Elements   `decodeElementValue`, `ParseElements`
--   Protocol/Properties `ParseProperties`; Properties/Fields: against the record's layout
--   Protocol/ReadList   `makeReadListPayload`, and `ActiveElements` from its response on
--   Protocol/DeviceTime `ReadDeviceTime`
--   Protocol/Open       `Open`, of a device or of an endpoint; Open/Closed: when it fails
--   Protocol/Client     the operations of `Client`; Client/Conversation: what they send
--   Collector           internal/collector/collector.go: `meaningful`, `filter`
--   Collector/Split     `splitArchiveReadList`
--   Collector/Archive   `readArchiveRecord`; Archive/Gathered: what a record consists of
--   Collector/Dates     `monthReportDate`, `due`, `nextArchiveTime`, `parseStart`, `parseVTDate`;
--                       Dates/Report, Dates/Order and Dates/Start are about them
--   Collector/World     the port, the database and the clock that a session works on
--   Collector/Session   `collectArchive`; Session/Start and Session/Ends are about its start and its
--                       end, Session/Saves and Session/Writes about what it stores, Session/Resume
--                       about where the next session goes on
--   Collector/Properties  `collectProperties`; Properties/Names: its names in the store
--   Collector/Once      `once`, `archiveJobs`; Once/Day, Once/Port and Once/Ends are about it
--   Collector/Run       `Run`; Run/Sessions: the sessions and the waits
--                       between them, Run/Idle: the port
--   Storage             internal/storage/storage.go: the operations of `Store`; Storage/Encode:
--                       `encode`, Storage/Names: `propertyAddress` and the tables' names,
--                       Storage/Commit and Storage/Properties: the transactions, Storage/Pool:
--                       `New` and `Migrate`
--   Program             cmd/vkt7d/main.go: `main`; Program/Start: the database at its
--                       start, Program/Story: its whole course, Program/Ends: the serial port at
--                       its end
--   Tests               runs on concrete inputs, some of them those of the Go tests
--
-- Bytes are natural numbers; that they are below 256 is a hypothesis where it matters, and the
-- conversions of the source are written out. A float32 is its bit pattern, and a Go string made of
-- raw bytes is those bytes. The text of an error is left out, its kind and what it wraps are kept.
--
-- The serial port of the transaction is a record of operations on a state (`SerialPort`), and so is
-- the TCP connection (`Connection`); what a theorem needs of them is a named hypothesis
-- (`Observed`, `Working`). The clock is the port's: `turns` is how often the loop of `readResponse`
-- finds its deadline ahead, and with no turn left it has timed out. The loop of `writeRaw` takes a
-- byte or more each turn, so it gets as many turns as there are bytes. `tx` makes two attempts, as
-- the source does. A command of the network port is a start and an end, since the reader's
-- goroutine runs between them; what a `select` finds is an argument. Over the network port the
-- protocol calls `Read` and `Write` as a client does: what the reader hears while a call waits, and
-- which case a `select` then takes (`Wake`, `Choice`), is `Surroundings`, any schedule at all; the
-- acknowledgement itself comes out of the channel that the reader filled. `Link` has one field that
-- the program has not, the history of what `Write` was given.
--
-- The database is a record of operations on a state (`Database`) that takes a constructor for each
-- SQL text; what is documented of its transactions is a hypothesis (`Transactions`), under which a
-- commit that fails may have stored nothing or everything, and so is a clock that does not run on
-- for ever during a session (`Bounded`). A `Time` counts months, days and seconds, and the local
-- zone is UTC. `time.Date` carries days on by turns, as many as days, since a month has a day at
-- least. The loop of `collectArchive` gets `turns`; Session/Ends is about how many are enough: more
-- than the bound of the clock, since every turn moves the cursor on by a second at least. The
-- columns of `encode` are the maps that encoding/json writes; `none` is the NULL of a map that it
-- refuses.
--
-- `Run` has no end of its own, so it is looked at after a number of sessions, and `still_running`
-- says that there would be more; what its select finds is the parameter `wait`. A timeout of the
-- configuration is given to the client in milliseconds, rounded up. url.Parse, the dialling and the
-- serial library are parameters; net.SplitHostPort and net.JoinHostPort are written out from Go's
-- net.
--
-- Not modelled: logging to the console; sleeps; other time zones and fractions of a second; the
-- waiting of a full channel: the chunk with which the reader waits stands in the list, and a `Read`
-- whose rest finds no room, which in the program waits until `Close`, gives at once what it returns
-- behind that `Close`; dates before the year 0, which an overlap of thousands of years of days or
-- months would reach; `DebugRecord`; what PostgreSQL does with a statement, and its schema; the
-- build files, and the report tool.
pub mod Common
pub mod Errors
pub mod Model
pub mod Calendar
pub mod Config
pub mod Collector
pub mod Storage
pub mod Telnet
pub mod Port
pub mod Network
pub mod Protocol
pub mod Program
mod Tests
