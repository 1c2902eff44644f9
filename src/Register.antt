-- ===== src/Register.antt =====
-- The replicated register of src/sut/register: a register server and four versions of its front end.
pub mod Messages
pub mod Codec
pub mod Store
pub mod FrontEnd
pub mod Pending
pub mod FrontEnd2
pub mod FrontEnd3
pub mod FrontEnd4
pub mod Deployed
