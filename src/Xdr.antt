-- ===== src/Xdr.antt =====
-- The XDR values of @stellar/stellar-sdk, in the shape in which the sources read them. The codec
-- is not modelled: a base64 string stands for the value that it decodes to.
mod Account
mod Entries
mod Envelope
mod Contract
unfoldable pub use Account.*
unfoldable pub use Entries.*
unfoldable pub use Envelope.*
unfoldable pub use Contract.*
