-- ===== src/Io.antt =====
-- What the code uses of Go's io, encoding/binary and encoding/hex: operations that return a value or
-- an error and the state they leave, sequential readers, and the contract of io.Writer.
mod Defs
pub mod Binary
pub mod Buffer
pub mod Emits
pub mod Ensures
pub mod Hex
pub mod Streams
unfoldable pub use Defs.*
