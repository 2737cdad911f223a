-- ===== src/Cdvi.antt =====
-- The client of CDVI Atrium controllers (src/agsync/lib/pacs/cdvi/client.py).
pub mod Xor
pub mod Hex
pub mod Cipher
pub mod RoundTrip
pub mod Cards
pub mod Pages
pub mod Edits
pub mod Listing
