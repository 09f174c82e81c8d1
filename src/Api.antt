-- ===== src/Api.antt =====
-- key-manager/internal/api without the JWT validator: who is asking, and what each route answers.
pub mod Types
pub mod Middleware
pub mod Handler
pub mod Authentication
pub mod Ownership
mod Tests
