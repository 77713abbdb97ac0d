-- ===== src/Tests.antt =====
-- Runs of the model on concrete inputs, and the theorems at such inputs.
mod TelnetTests
mod PortTests
mod ClientTests
mod ArchiveTests
mod ProtocolTests
mod DataTests
mod CollectorTests
mod Script
mod Store
mod CalendarTests
mod StorageTests
mod SessionTests
mod OnceTests
mod PropertiesTests
mod NetworkTests
mod ProgramTests
mod OpenTests
