-- ===== src/Device.antt =====
-- The device endpoint: oidc-gateway/src/device.rs, up to the HTML of its pages.
pub mod Answers
pub mod Start
pub mod Submit
pub mod Confirm
pub mod Confirmed
