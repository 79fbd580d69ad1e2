-- ===== src/Approval.antt =====
-- Approval workflows: the workflow, the request with its state machine, and the service.
pub mod Workflow
pub mod Request
pub mod Service
