-- ===== src/Items.antt =====
-- internal/service/item.go: folders and files, who may read and write them, moves, copies, uploads
-- and the trash.
pub mod Walk
pub mod Forest
pub mod Access
pub mod Names
pub mod Sound
pub mod Paths
pub mod Move
pub mod Content
pub mod Create
pub mod Copy
pub mod Trash
pub mod Written
pub mod Reach
pub mod Quota
pub mod Lists
pub mod Search
pub mod Scan
pub mod Thumb
pub mod Shared
