-- ===== src/Server.antt =====
-- api/openapi/cron-service.go: the wrapper of every operation, around the handlers of pkg/api.
pub mod Runtime
pub mod Params
pub mod Routes
pub mod Paths
pub mod Handlers
pub mod Wrapper
pub mod Binding
pub mod Views
pub mod ListViews
pub mod Tenants
pub mod Frames
pub mod Isolation
pub mod Reading
