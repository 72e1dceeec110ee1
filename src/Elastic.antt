-- ===== src/Elastic.antt =====
-- internal/elasticsearch/client.go: the removal of dot-only field names from a document, and the
-- retries of a write. The SDK is outside: what each attempt meets is an argument.
pub mod Document
pub mod Retries
pub mod Publish
pub mod Setup
pub mod Describe
pub mod Write
