-- ===== src/Pymod.antt =====
-- src/pymod.rs: the Python bindings. pyo3 is an interface: the objects that it builds. The entry
-- points return what pyo3 converts, with `raised` for a `ValueError` and its message, and `os_error`
-- for the error of a file.
pub mod Objects
pub mod EntryPoints
pub mod HeaderEnd
