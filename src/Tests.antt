-- ===== src/Tests.antt =====
-- Runs of the model at concrete inputs, and instances of the theorems, a file for each component.
mod BufferTests
mod EchoTests
mod OverHttpTests
mod HttpTests
mod HttpCallTests
mod ServerTests
mod LoopTests
mod ConnectionTests
mod ClientTests
mod SystemTests
mod LogTests
mod CallTests
mod Kernel
mod SimpleTests
mod TimeTests
