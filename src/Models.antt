-- ===== src/Models.antt =====
-- models.py, the values of JSON, and what the model takes of Python's floats.
pub mod Json
pub mod Floats
pub mod Note
pub mod Task
pub mod Manifest
pub mod Rows
