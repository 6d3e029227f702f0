-- ===== src/Json.antt =====
-- encoding/json, as far as the packages under backend/ use it: JSON as a tree, and decoding into Go
-- values and encoding of them. Text that is not JSON is `none` where a caller reads text; the tokenizer and the printer
-- are not modelled. The names of fields are folded in ASCII only.
mod Value
mod Decode
pub mod Number
pub mod Encode
pub mod RoundTrips
pub use Value.*
unfoldable pub use Decode.*
