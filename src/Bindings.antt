-- ===== src/Bindings.antt =====
-- The analyzer of Objective-C headers: Bindings/Bindings OSX Framework/MPObjectiveCTokens.h and .m, and
-- Bindings/Bindings/MPObjectiveCAnalyzer.m.
pub mod Tokens
mod Additions
mod Constants
mod Tests
