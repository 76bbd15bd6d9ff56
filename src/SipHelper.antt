-- ===== src/SipHelper.antt =====
-- app/sip_helper.c: the texts and the headers of a request.
pub mod Requests
pub mod Mangler
