-- ===== src/Machine.antt =====
-- The machine that the C code runs on: a world with the thread's error message, the log of the
-- callbacks that were called and the heap of the component at hand; commands that read and write it.
mod Core
pub use Core.*
