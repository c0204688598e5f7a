-- ===== src/Tests.antt =====
-- Runs of the models on inputs of the repository's tests, and the theorems at concrete inputs, with
-- nom's interface at its reference value.
mod Samples
mod PyValues
mod Python
mod Headers
mod Smtp
mod Mime
mod Imf
mod Envelopes
mod Words
mod Addresses
mod Dsn
mod Forwarded
mod MimeHeaders
mod AddressLists
