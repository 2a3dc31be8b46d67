-- ===== src/Python.antt =====
-- What the feeders use of Python itself: exceptions, dictionaries and sets, dynamic values, texts,
-- numbers, and the products of floats.
pub mod Errors
pub mod Dict
pub mod Value
pub mod Hex
pub mod Text
pub mod Run
pub mod Number
pub mod Float
