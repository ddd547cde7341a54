-- ===== src/Messages.antt =====
-- src/service/fr_messages.cpp and include/forgerelay/messages.hpp: the payloads of the protocol's
-- messages. A `std::string` and a `std::vector<uint8_t>` are lists of bytes.
pub mod Fields
pub mod Wire
pub mod Upload
pub mod Listing
pub mod Admin
pub mod Travels
mod Tests
