-- ===== src/Tests.antt =====
-- The theorems at concrete inputs, and runs of the definitions.
mod Integers
mod JsonTests
mod StreamTests
mod SessionTests
mod ToolsTests
mod ChatTests
mod Wire
mod HttpTests
mod PromptTests
mod MainTests
mod HeapTests
