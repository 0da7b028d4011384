-- ===== src/Network.antt =====
-- client/openpak/network_ceiling.cpp and network_profile_fetch.cpp: which names the console's traffic
-- may be redirected for, and where. The signed ceiling bounds the profile name by name.
pub mod Base64
pub mod Family
pub mod Json
pub mod Ceiling
pub mod Profile
pub mod Watch
mod Examples
