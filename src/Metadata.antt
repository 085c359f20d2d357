-- ===== src/Metadata.antt =====
-- SharedHeap.cpp: the metadata kept for each page, and how an address finds it.
pub mod Address
pub mod Sharing
pub mod SharingLaws
pub mod OwnView
pub mod Bitmap
pub mod BitmapLaws
pub mod LostBits
