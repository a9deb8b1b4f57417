-- ===== src/Handler.antt =====
-- The feed handler's stages: src/handler.
pub mod ParserStage
pub mod Pipeline
