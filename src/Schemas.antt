-- ===== src/Schemas.antt =====
-- The data contracts of schemas/: what the components hand to one another. UUIDs, dates (day
-- numbers) and times (microseconds) are natural numbers; texts are native texts. Every
-- `model_validator` is a Boolean function that says whether the model is built or refused.
pub mod Extraction
pub mod Erp
pub mod Validation
pub mod Matching
pub mod Exceptions
pub mod Policy
pub mod Gate
pub mod Queue
pub mod Review
pub mod Digests
