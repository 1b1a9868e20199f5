-- ===== src/Chain.antt =====
-- backend.py: the signing of a commitment, from `_authorization_integer` to `publish`, the methods that
-- read the chain, the round and the selfcheck, and `MicrotensorBackend` as the controller's backend. The
-- node, the wallet, the client and the subnet's package are parameters.
pub mod Objects
pub mod Checks
pub mod Node
pub mod Policy
pub mod Fee
pub mod Envelope
pub mod Quote
pub mod Submit
pub mod Rules
pub mod Facts
pub mod Trail
pub mod Stages
pub mod Rechecks
pub mod Whole
pub mod Costless
pub mod Confirmed
pub mod Publish
pub mod Client
pub mod Backend
pub mod Methods
pub mod Composed
pub mod Answers
pub mod Reads
pub mod Seen
pub mod Anchored
pub mod Fitting
pub mod Calls
pub mod Trusted
pub mod Receipt
