-- ===== src/Tests.antt =====
-- The theorems at concrete inputs, over small stand-ins for the libraries.
mod World
mod OptionTests
mod SyncTests
mod CommandTests
mod LayerTests
mod DiskTests
mod SigningTests
mod InspectTests
mod FlagTests
mod AuthTests
mod IntegrationTests
