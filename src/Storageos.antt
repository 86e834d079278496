-- ===== src/Storageos.antt =====
-- internal/pkg/storageos: the client of the StorageOS API.
pub mod Namespace
pub mod Volume
pub mod Index
pub mod VolumeLabels
pub mod NodeLabels
pub mod Node
pub mod Mock
pub mod SharedVolume
