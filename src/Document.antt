-- ===== src/Document.antt =====
-- client/document_model.h, client/document_model.cpp, client/editor_diff.h and
-- client/editor_diff.cpp: the operations on the text of a document, and the difference of two texts.
-- A text is the list of its UTF-16 code units; sizes are far below 2^64, so their sums do not wrap.
pub mod Model
pub mod Diff
pub mod Laws
pub mod Scan
pub mod Diffing
pub mod Tests
