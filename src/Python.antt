-- ===== src/Python.antt =====
-- The part of Python that rs274.py stands on: dynamic values, exceptions, methods that change an
-- object, and the call stack that `inspect.stack` returns.
pub mod Value
pub mod Exec
pub mod Frames
pub mod Text
