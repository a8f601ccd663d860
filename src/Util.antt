-- ===== src/Util.antt =====
-- src/util: the digit cipher and the sizes of files (util.go), the shuffle, and the divider of
-- traffic (traffic_divider.go).
pub mod Alpha
pub mod Shuffle
pub mod Divider
mod Tests
