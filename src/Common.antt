-- ===== src/Common.antt =====
-- pesigitg-common/src: hexadecimal text and Ethernet addresses.
pub mod Hex
pub mod Mac
pub mod Address
pub mod AddressMap
