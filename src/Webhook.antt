-- ===== src/Webhook.antt =====
-- pkg/webhook/v1alpha2: what the admission webhooks change and accept.
pub mod Validation
pub mod Content
pub mod Samples
pub mod Mutation
pub mod Component
pub mod Preparation
