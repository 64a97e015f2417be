-- ===== src/Gin.antt =====
-- integrations/gin/gin.go: the middleware for the framework gin.
pub mod Defs
pub mod Middleware
pub mod Recovered
