-- ===== src/Identity.antt =====
-- The identity package: tokens, the digest pins, the issuer and its command line.
pub mod Tokens
pub mod Store
pub mod Issuer
pub mod AdminCli
